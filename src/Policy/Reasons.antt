-- ===== src/Policy/Reasons.antt =====
-- What it means that each part of `evaluate` (gateway_policy.py) appends no reason.
use platform_engineering.Prelude.{
  ◌≡◌, refl, String, Bool, true, false, not, some, List, [], ◌∷◌, ◌++◌, ℕ, ◌≤◌, ◌⊎◌, inl, inr,
  arith, is_empty, contains, Bool-cases,
}
use platform_engineering.Prelude.Sets.{Each}
use platform_engineering.Json.{
  pos, Value, null, bool, int, str, arr, obj, Fields, get, has, is_str, value_eq, is_true, truthy,
  number, mem_texts,
}
use platform_engineering.Json.Equality.{is_text→eq}
use platform_engineering.Json.Length.{encoded_length}
use platform_engineering.Profile.{Profile}
use platform_engineering.Policy.{
  when, version_reasons, size_reasons, operator_reasons, activation_reasons, missing_fields,
  names_owner, split_slash, required_caller_fields, caller_reasons, slash_of,
}

pub when-empty : (t : Bool) (r : String) → is_empty (when (not t) r) ≡ t
when-empty true r = refl
when-empty false r = refl

pub when-empty_rest :
    (t : Bool) (r : String) (rest : List String)
    → is_empty (when (not t) r ++ rest) ≡ true
    → (t ≡ true) × (is_empty rest ≡ true)
when-empty_rest true r rest h = (refl, h)
when-empty_rest false r rest h = cc

pub when-empty_last : (t : Bool) (r : String) → is_empty (when (not t) r) ≡ true → t ≡ true
when-empty_last t r h = ground arith

pub empty-append_left :
    {A : Type 0} (xs ys : List A) → is_empty (xs ++ ys) ≡ true → is_empty xs ≡ true
empty-append_left [] ys h = refl
empty-append_left (x ∷ xs) ys h = h

pub empty-append_right :
    {A : Type 0} (xs ys : List A) → is_empty (xs ++ ys) ≡ true → is_empty ys ≡ true
empty-append_right [] ys h = h
empty-append_right (x ∷ xs) ys h = ground arith

pub missing_fields-empty :
    (missing : Value → Bool) (names : List String) (d : Fields)
    → is_empty (missing_fields missing names d) ≡ true
    → Each (λ f. missing (get f d) ≡ false) names
unfolding missing_fields
missing_fields-empty missing [] d h = tt
missing_fields-empty missing (x ∷ xs) d h = elim (Bool-cases (missing (get x d))) [
  | inl e ↦ ground (arith, e)
  | inr e ↦ (e, missing_fields-empty missing xs d (rw e at h))
]

pub version_reasons-empty :
    (request : Fields)
    → is_empty (version_reasons request) ≡ true
    → (has "selection_evidence_version" request ≡ false)
      ⊎ (get "selection_evidence_version" request ≡ int (pos 1))
unfolding version_reasons
version_reasons-empty request h = ground arith

-- The limit is a number, and the request is at most that long.
pub size_reasons-empty :
    (profile : Profile) (request : Fields)
    → is_empty (size_reasons profile request) ≡ true
    → (limit : ℕ) × (number profile.max_request_bytes ≡ some (pos limit))
      × (encoded_length (obj request) ≤ limit)
unfolding size_reasons
size_reasons-empty profile request h = ground arith

pub operator_reasons-empty :
    (operator : Value)
    → is_empty (operator_reasons operator) ≡ true
    → (d : Fields) × (operator ≡ obj d) × (truthy (get "operator_id" d) ≡ true)
unfolding operator_reasons
operator_reasons-empty (obj d) h = (d, refl, ground arith)
operator_reasons-empty null h = ground arith
operator_reasons-empty (bool b) h = ground arith
operator_reasons-empty (int n) h = ground arith
operator_reasons-empty (str s) h = ground arith
operator_reasons-empty (arr xs) h = ground arith

mem_texts-str : (s : String) (xs : List String) → mem_texts (str s) xs ≡ contains s xs
unfolding mem_texts
mem_texts-str s [] = refl
mem_texts-str s (x ∷ xs) = rw (mem_texts-str s xs)

mem_texts_other : (v : Value) (xs : List String) → is_str v ≡ false → mem_texts v xs ≡ false
unfolding mem_texts
mem_texts_other v [] h = refl
mem_texts_other (str s) (x ∷ xs) h = ground arith
mem_texts_other null (x ∷ xs) h = mem_texts_other null xs h
mem_texts_other (bool b) (x ∷ xs) h = mem_texts_other (bool b) xs h
mem_texts_other (int n) (x ∷ xs) h = mem_texts_other (int n) xs h
mem_texts_other (arr ys) (x ∷ xs) h = mem_texts_other (arr ys) xs h
mem_texts_other (obj d) (x ∷ xs) h = mem_texts_other (obj d) xs h

-- A value that is in a list of texts is one of them.
pub mem_texts→contains :
    (v : Value) (xs : List String)
    → mem_texts v xs ≡ true
    → (s : String) × (v ≡ str s) × (contains s xs ≡ true)
mem_texts→contains (str s) xs h = (s, refl, rw (mem_texts-str s xs) at h)
mem_texts→contains null xs h = cc (mem_texts_other null xs refl)
mem_texts→contains (bool b) xs h = cc (mem_texts_other (bool b) xs refl)
mem_texts→contains (int n) xs h = cc (mem_texts_other (int n) xs refl)
mem_texts→contains (arr ys) xs h = cc (mem_texts_other (arr ys) xs refl)
mem_texts→contains (obj d) xs h = cc (mem_texts_other (obj d) xs refl)

-- The caller is listed, names the owner that its id names, and asks for this profile.
pub record IsCaller (profile : Profile) (profile_id : Value) (caller : Fields) : Type 0 where
  pub identified : Each (λ f. truthy (get f caller) ≡ true) required_caller_fields
  pub caller_id : String
  pub named : get "caller_id" caller ≡ str caller_id
  pub listed : contains caller_id profile.allowed_callers ≡ true
  pub owned : names_owner (split_slash caller_id) caller ≡ true
  pub requested : value_eq (get "requested_profile_id" caller) profile_id ≡ true

pub Each-truthy :
    (names : List String) (d : Fields)
    → Each (λ f. not (truthy (get f d)) ≡ false) names
    → Each (λ f. truthy (get f d) ≡ true) names
Each-truthy [] d h = tt
Each-truthy (x ∷ xs) d h = (ground (arith, h.0), Each-truthy xs d h.1)

pub caller_reasons-empty :
    (profile : Profile) (profile_id : Value) (caller : Fields)
    → is_empty (caller_reasons profile profile_id caller) ≡ true
    → IsCaller profile profile_id caller
unfolding caller_reasons
caller_reasons-empty profile profile_id caller h =
    let missing = missing_fields (λ v. not (truthy v)) required_caller_fields caller in
    let (a, rest) = when-empty_rest (is_empty missing) _ _ h in
    let (b, rest') = when-empty_rest (mem_texts (get "caller_id" caller) _) _ _ rest in
    let (c, last) =
      when-empty_rest (names_owner (slash_of (get "caller_id" caller)) caller) _ _ rest' in
    let (id, e, m) = mem_texts→contains (get "caller_id" caller) profile.allowed_callers b in
    record {
      identified =
          Each-truthy required_caller_fields caller
            (missing_fields-empty (λ v. not (truthy v)) required_caller_fields caller a);
      caller_id = id;
      named = e;
      listed = m;
      owned = rw e at c;
      requested = when-empty_last (value_eq (get "requested_profile_id" caller) profile_id) _ last;
    }

-- Nothing of the profile's release state stands in the way.
pub record IsActive (profile : Profile) : Type 0 where
  pub status : profile.profile_status ≡ str "active"
  pub binding : profile.binding_status ≡ str "active"
  pub route : profile.provider_route_status ≡ str "active"
  pub activation : is_true profile.profile_activation_allowed ≡ true
  pub eligible : is_true profile.activation_eligible ≡ true

pub activation_reasons-empty :
    (profile : Profile) → is_empty (activation_reasons profile) ≡ true → IsActive profile
unfolding activation_reasons
activation_reasons-empty profile h = ground (
  arith,
  is_text→eq profile.profile_status "active",
  is_text→eq profile.binding_status "active",
  is_text→eq profile.provider_route_status "active",
)
