-- ===== src/Configuration/Routes.antt =====
-- What `validate` (model_configuration.py) promises of a configuration that it passes.
use mathlib.Core.Path.{subst}
use platform_engineering.Prelude.{
  ℕ, ◌≤◌, ◌≡◌, ◌⊎◌, refl, sym, ap, ◌∙◌, String, Bool, true, false, not, ◌&&◌, Option, none, some,
  List, [], ◌∷◌, ◌==◌, eq_iff, arith, if◌then◌else◌, Bool-cases, inl, inr, and_left, and_right,
  contains, leb, length, all,
}
use platform_engineering.Dict.{lookup}
use platform_engineering.Json.{
  Value, null, bool, obj, arr, str, int, Items, nil, cons, Fields, get, keys, as_fields, is_dict,
  is_null, is_text, mem_items, count_items, has_exactly,
}
use platform_engineering.Json.Equality.{is_text→eq}
use platform_engineering.Result.{
  Result, ok, err, Error, configuration, ◌>>=◌, ◌>>◌, require, or_raise-eq-ok, require-eq-ok,
  >>=-eq-ok, ok-injective, Unit-ok, Every, for_each, for_each-ok,
}
use platform_engineering.Configuration.{Backend, Owner, Configuration, closed}
use platform_engineering.Configuration.Validation.{
  is_effort, Seen, is_seen, in_items, item, admits, text_or, validate_target, validate_targets,
  fallbacks_of, route_keys, validate_route, route_of, validate_task, validate, validate_backend,
  validate_model, validate_assignment, assigned,
}
use platform_engineering.Configuration.Accepted.{closed-ok}

-- A selection that can be served: a registered model that supports the effort, on an admitted
-- backend that is allowed the task.
pub record IsTarget (owner : Owner) (config : Configuration) (task : String) (target : Value)
    (key : String × Value) : Type 0 where
  pub fields : Fields
  pub shape : target ≡ obj fields
  pub named : get "model_id" fields ≡ str key.0
  pub effort : get "effort" fields ≡ key.1
  pub model : Value
  pub registered : lookup key.0 config.models ≡ some model
  pub efforts : Items
  pub catalogue : item "supported_efforts" model ≡ ok (arr efforts)
  pub supported : mem_items key.1 efforts ≡ true
  pub backend_id : String
  pub served : item "backend_id" model ≡ ok (str backend_id)
  pub backend : Backend
  pub admitted : lookup backend_id owner.backends ≡ some backend
  pub allowed : contains task backend.allowed_tasks ≡ true

text_or-ok : (v : Value) (e : Error) (s : String) → text_or v e ≡ ok s → v ≡ str s
text_or-ok (str t) e s h = ap str (ok-injective t s h)
text_or-ok null e s h = cc
text_or-ok (bool b) e s h = cc
text_or-ok (int n) e s h = cc
text_or-ok (arr xs) e s h = cc
text_or-ok (obj d) e s h = cc

in_items-ok :
    (v w : Value) → in_items v w ≡ ok true → (xs : Items) × (w ≡ arr xs) × (mem_items v xs ≡ true)
in_items-ok v (arr xs) h = (xs, refl, ok-injective (mem_items v xs) true h)
in_items-ok v null h = absurd (ground arith)
in_items-ok v (bool b) h = absurd (ground arith)
in_items-ok v (int n) h = absurd (ground arith)
in_items-ok v (str s) h = absurd (ground arith)
in_items-ok v (obj d) h = absurd (ground arith)

admitted_some :
    (task : String) (o : Option Backend)
    → elim o [ none ↦ false | some b ↦ contains task b.allowed_tasks ] ≡ true
    → (b : Backend) × (o ≡ some b) × (contains task b.allowed_tasks ≡ true)
admitted_some task none h = absurd (ground arith)
admitted_some task (some b) h = (b, refl, h)

admits-ok :
    (owner : Owner) (task : String) (v : Value)
    → admits owner task v ≡ ok true
    → (k : String) × (b : Backend) × (v ≡ str k)
      × (lookup k owner.backends ≡ some b)
      × (contains task b.allowed_tasks ≡ true)
admits-ok owner task (str k) h =
    let (b, e, c) = admitted_some task (lookup k owner.backends) (ok-injective _ true h) in
    (k, b, refl, e, c)
admits-ok owner task null h = absurd (ground arith)
admits-ok owner task (bool b) h = absurd (ground arith)
admits-ok owner task (int n) h = absurd (ground arith)
admits-ok owner task (arr xs) h = absurd (ground arith)
admits-ok owner task (obj d) h = absurd (ground arith)

-- A Boolean that was computed, and then required
required :
    {B : Type 0} (m : Result Bool) (e : Error) (k : Result B) {b : B}
    → (m >>= λ t. require t e >> k) ≡ ok b
    → (m ≡ ok true) × (k ≡ ok b)
required (ok true) e k h = (refl, h)
required (ok false) e k h = absurd (ground arith)
required (err f) e k h = absurd (ground arith)

pub validate_target-IsTarget :
    (owner : Owner) (config : Configuration) (task : String) (seen : Seen) (target : Value)
    (key : String × Value)
    → validate_target owner config task seen target ≡ ok key
    → IsTarget owner config task target key × (is_seen key.0 key.1 seen ≡ false)
unfolding validate_target
validate_target-IsTarget owner config task seen target key h =
    let (d, shape, h₁) = >>=-eq-ok (closed target ("model_id" ∷ "effort" ∷ [])) _ h in
    let (id, named, h₂) = >>=-eq-ok (text_or (get "model_id" d) _) _ h₁ in
    let (typed, h₃) = require-eq-ok (is_effort (get "effort" d)) _ _ h₂ in
    let (model, found, h₄) = or_raise-eq-ok (lookup id config.models) _ _ h₃ in
    let (efforts, catalogue, h₅) = >>=-eq-ok (item "supported_efforts" model) _ h₄ in
    let (supported, h₆) = required (in_items (get "effort" d) efforts) _ _ h₅ in
    let (backend, served, h₇) = >>=-eq-ok (item "backend_id" model) _ h₆ in
    let (admitted, h₈) = required (admits owner task backend) _ _ h₇ in
    let (unseen, h₉) = require-eq-ok (not (is_seen id (get "effort" d) seen)) _ _ h₈ in
    let (xs, list, among) = in_items-ok (get "effort" d) efforts supported in
    let (k, b, text, row, allowed) = admits-ok owner task backend admitted in
    subst
      (λ (p : String × Value). IsTarget owner config task target p × (is_seen p.0 p.1 seen ≡ false))
      (ok-injective (id, get "effort" d) key h₉)
      (
        record {
          fields = d;
          shape = (closed-ok target _ d shape).0;
          named = text_or-ok (get "model_id" d) _ id named;
          effort = refl;
          model = model;
          registered = found;
          efforts = xs;
          catalogue = catalogue ∙ ap ok list;
          supported = among;
          backend_id = k;
          served = served ∙ ap ok text;
          backend = b;
          admitted = row;
          allowed = allowed;
        },
        ground (arith, unseen),
      )

-- Every target can be served, and none has the key of one before it.
abbrev pub AreTargets : Owner → Configuration → String → Seen → Items → Type 0
AreTargets owner config task seen nil = Unit
AreTargets owner config task seen (cons target targets) =
    (key : String × Value) × IsTarget owner config task target key
    × (is_seen key.0 key.1 seen ≡ false)
    × AreTargets owner config task (key ∷ seen) targets

validate_targets-AreTargets :
    (owner : Owner) (config : Configuration) (task : String) (seen : Seen) (targets : Items)
    → validate_targets owner config task seen targets ≡ ok tt
    → AreTargets owner config task seen targets
unfolding validate_targets
validate_targets-AreTargets owner config task seen nil h = tt
validate_targets-AreTargets owner config task seen (cons target targets) h =
    let (key, first, rest) = >>=-eq-ok (validate_target owner config task seen target) _ h in
    let (good, unseen) = validate_target-IsTarget owner config task seen target key first in
    (key, good, unseen, validate_targets-AreTargets owner config task (key ∷ seen) targets rest)

-- A primary and at most four fallbacks, which fail closed when they are exhausted.
pub record IsRoute (owner : Owner) (config : Configuration) (task : String) (route : Value)
    : Type 0 where
  pub fields : Fields
  pub shape : route ≡ obj fields
  pub exact : has_exactly route_keys fields ≡ true
  pub closes : get "on_exhausted" fields ≡ str "fail-closed"
  pub fallbacks : Items
  pub listed : get "fallbacks" fields ≡ arr fallbacks
  pub few : count_items fallbacks ≤ 4
  pub targets : AreTargets owner config task [] (cons (get "primary" fields) fallbacks)

fallbacks_by :
    (v : Value) (closes : Bool) (xs : Items)
    → elim v [
      | arr ys ↦
          if closes && leb (count_items ys) 4 then ok ys else err (configuration "invalid-fallback")
      | _ ↦ err (configuration "invalid-fallback")
    ]
      ≡ ok xs
    → (v ≡ arr xs) × (closes ≡ true) × (count_items xs ≤ 4)
fallbacks_by (arr ys) closes xs h = elim (Bool-cases (closes && leb (count_items ys) 4)) [
  | inl t ↦
      let same : ys ≡ xs = ok-injective ys xs (rw t at h) in
      (
        ap arr same,
        and_left closes _ t,
        subst (λ z. count_items z ≤ 4) same (within (count_items ys) (and_right closes _ t)),
      )
  | inr f ↦ absurd (failed (rw f at h))
]
  where
    within : (n : ℕ) → leb n 4 ≡ true → n ≤ 4
    within n l = ground arith

    failed : err (configuration "invalid-fallback") ≡ ok xs → ⊥
    failed p = cc
fallbacks_by null closes xs h = absurd (ground arith)
fallbacks_by (bool b) closes xs h = absurd (ground arith)
fallbacks_by (int n) closes xs h = absurd (ground arith)
fallbacks_by (str s) closes xs h = absurd (ground arith)
fallbacks_by (obj d) closes xs h = absurd (ground arith)

pub validate_route-IsRoute :
    (owner : Owner) (config : Configuration) (task : String) (route : Value)
    → validate_route owner config task route ≡ ok tt
    → IsRoute owner config task route
unfolding validate_route
validate_route-IsRoute owner config task route h =
    let (d, shape, h₁) = >>=-eq-ok (closed route route_keys) _ h in
    let (xs, list, h₂) = >>=-eq-ok (fallbacks_of d) _ h₁ in
    let (listed, closes, few) =
      fallbacks_by (get "fallbacks" d) (is_text (get "on_exhausted" d) "fail-closed") xs list in
    let (same, exact) = closed-ok route route_keys d shape in
    record {
      fields = d;
      shape = same;
      exact = exact;
      closes = is_text→eq (get "on_exhausted" d) "fail-closed" closes;
      fallbacks = xs;
      listed = listed;
      few = few;
      targets = validate_targets-AreTargets owner config task [] (cons (get "primary" d) xs) h₂;
    }

Every-contains :
    (P : String → Type 0) (xs : List String) (s : String) → contains s xs ≡ true → Every P xs → P s
Every-contains P [] s m h = absurd (ground arith)
Every-contains P (x ∷ xs) s m h = elim (Bool-cases (s == x)) [
  | inl e ↦ subst P (sym ((eq_iff s x).0 e)) h.0
  | inr e ↦ Every-contains P xs s (rw e at m) h.1
]

validate_task-IsRoute :
    (owner : Owner) (config : Configuration) (task : String)
    → validate_task owner config task ≡ ok tt
    → (is_null (route_of config task) ≡ true) ⊎ IsRoute owner config task (route_of config task)
unfolding validate_task
validate_task-IsRoute owner config task h = elim (Bool-cases (is_null (route_of config task))) [
  | inl e ↦ inl e
  | inr e ↦ inr (validate_route-IsRoute owner config task (route_of config task) (rw e at h))
]

-- The parts of a configuration that passes, in the order of the code
pub validate-parts :
    (hexdigest : Value → String) (owner : Owner) (config : Configuration)
    → validate hexdigest owner config ≡ ok tt
    → (for_each (validate_backend owner) config.backends ≡ ok tt)
      × (for_each (validate_model hexdigest config) config.models ≡ ok tt)
      × (for_each (validate_task owner config) owner.tasks ≡ ok tt)
unfolding validate
validate-parts hexdigest owner config h =
    let (a, h₁) = require-eq-ok (leb (length (assigned config)) 128) _ _ h in
    let (u₁, b, h₂) = >>=-eq-ok (for_each (validate_assignment owner) (assigned config)) _ h₁ in
    let (c, h₃) = require-eq-ok (is_dict config.overrides) _ _ h₂ in
    let (u₂, d, h₄) = >>=-eq-ok (for_each (validate_backend owner) config.backends) _ h₃ in
    let (u₃, e, h₅) = >>=-eq-ok (for_each (validate_model hexdigest config) config.models) _ h₄ in
    let (f, h₆) =
      require-eq-ok (all (λ task. contains task owner.tasks) (keys (as_fields config.overrides))) _
        _ h₅ in
    (Unit-ok _ u₂ d, Unit-ok _ u₃ e, h₆)

-- In a configuration that passes `validate`, every admitted task has no route, or a route whose
-- targets are all registered models that support the effort, on admitted backends that are allowed
-- the task, without repetition, with at most four fallbacks, and closed on failure.
pub validate-IsRoute :
    (hexdigest : Value → String) (owner : Owner) (config : Configuration) (task : String)
    → validate hexdigest owner config ≡ ok tt
    → contains task owner.tasks ≡ true
    → (is_null (route_of config task) ≡ true) ⊎ IsRoute owner config task (route_of config task)
validate-IsRoute hexdigest owner config task h m = validate_task-IsRoute owner config task (
    Every-contains (λ t. validate_task owner config t ≡ ok tt) owner.tasks task m
      (for_each-ok (validate_task owner config) owner.tasks
        (validate-parts hexdigest owner config h).2))
