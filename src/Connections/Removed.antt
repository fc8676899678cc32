-- ===== src/Connections/Removed.antt =====
-- What the parts of `ProviderConnections` (provider_connections.py) make of a connection that was removed.
use mathlib.Core.Path.{subst}
use mathlib.Core.Bool.{false≢true}
use platform_engineering.Prelude.{
  ◌≡◌, refl, sym, ap, ◌∙◌, String, Bool, true, false, not, Option, none, some, ◌==◌, eq_iff, arith,
  ◌⊎◌, inl, inr, Bool-cases, if-true, if-false,
}
use platform_engineering.Dict.{lookup, lookup-insert}
use platform_engineering.Json.{Value, str, Fields, get, as_fields}
use platform_engineering.Result.{ok, ok-injective, >>=-eq-ok, require-eq-ok}
use platform_engineering.Configuration.{closed, fingerprint}
use platform_engineering.Configuration.Accepted.{closed-ok}
use platform_engineering.Configuration.Commands.{command_keys}
use platform_engineering.Connections.{
  Book, Connection, Operation, removed, is_removed, put_connection, finish,
}
use platform_engineering.Connections.Admission.{
  found_as, Admitted, Bound, Change, identifier, admitted_by, admit, connection_of, bind,
  fence_pending, fence_prior,
}

-- The connection is there, and removed.
abbrev pub IsRemoved : String → Book → Type 0
IsRemoved c book =
    (item : Connection) × (lookup c book.connections ≡ some item) × (item.state ≡ removed)

-- What a change of a connection must not do: bring `c` back
abbrev pub Spares : String → String → Connection → Type 0
Spares c key item = ((key == c) ≡ false) ⊎ (item.state ≡ removed)

pub put_connection-IsRemoved :
    (c key : String) (item : Connection) (book : Book)
    → Spares c key item
    → IsRemoved c book
    → IsRemoved c (put_connection key item book)
put_connection-IsRemoved c key item book (inl other) (old, e, r) =
    (old, lookup-insert key c item book.connections ∙ if-false _ _ _ other ∙ e, r)
put_connection-IsRemoved c key item book (inr gone) (old, e, r) = elim (Bool-cases (key == c)) [
  | inl t ↦ (item, lookup-insert key c item book.connections ∙ if-true _ _ _ t, gone)
  | inr f ↦ (old, lookup-insert key c item book.connections ∙ if-false _ _ _ f ∙ e, r)
]

pub finish-IsRemoved :
    (hexdigest : Value → String) (presets : Value) (now : String) (c : String) (book : Book)
    (operation_key : String) (operation : Operation) (key : String) (item : Connection)
    → Spares c key item
    → IsRemoved c book
    → IsRemoved c ((finish hexdigest presets now book operation_key operation key item).1)
unfolding finish
finish-IsRemoved hexdigest presets now c book operation_key operation key item spares r =
    put_connection-IsRemoved c key (record item { pending_operation = none; updated_at = now }) book
      spares r

-- A connection that is not removed is another one.
pub unremoved-Spares :
    (c key : String) (item : Connection) (book : Book)
    → IsRemoved c book
    → lookup key book.connections ≡ some item
    → is_removed item.state ≡ false
    → (key == c) ≡ false
unremoved-Spares c key item book (old, e, r) found kept = elim (Bool-cases (key == c)) [
  | inl t ↦
      let same : some old ≡ some item =
        sym e ∙ ap (λ k. lookup k book.connections) (sym ((eq_iff key c).0 t)) ∙ found in
      absurd (
        false≢true (
          sym kept
          ∙ ap (λ (x : Connection). is_removed x.state) (sym (some-same same))
          ∙ ap is_removed r))
  | inr f ↦ f
]
  where
    some-same : some old ≡ some item → old ≡ item
    some-same p = cc

-- What the file holds of `c` is removed.
pub found-Spares :
    (c key : String) (item : Connection) (book : Book)
    → IsRemoved c book
    → lookup key book.connections ≡ some item
    → Spares c key item
found-Spares c key item book (old, e, r) found = elim (Bool-cases (key == c)) [
  | inl t ↦
      inr
        (state_of (sym e ∙ ap (λ k. lookup k book.connections) (sym ((eq_iff key c).0 t)) ∙ found))
  | inr f ↦ inl f
]
  where
    state_of : some old ≡ some item → item.state ≡ removed
    state_of p = let same : old ≡ item = cc in ap (λ (x : Connection). x.state) (sym same) ∙ r

pub connection_of-found :
    (book : Book) (v : Value) (key : String) (item : Connection)
    → connection_of book v ≡ ok (key, item)
    → lookup key book.connections ≡ some item
connection_of-found book (str id) key item h = found_by (lookup id book.connections) refl h
  where
    found_by :
        (o : Option Connection)
        → lookup id book.connections ≡ o
        → found_as id o ≡ ok (key, item)
        → lookup key book.connections ≡ some item
    found_by none e p = absurd (ground arith)
    found_by (some x) e p =
        let k : id ≡ key = cc in
        let x' : x ≡ item = cc in ap (λ q. lookup q book.connections) (sym k) ∙ e ∙ ap some x'
connection_of-found book v key item h = ground arith

identifier-str : (v : Value) (id : String) → identifier v ≡ ok id → v ≡ str id
identifier-str v id h = ground arith

admitted_by-same :
    (book : Book) (id print actor : String) (fields : Fields) (o : Option Operation) (a : Admitted)
    → admitted_by book id print actor fields o ≡ ok a
    → (a.book.connections ≡ book.connections) × (a.key ≡ id)
admitted_by-same book id print actor fields o a h = ground arith

-- What `_admit` returns has the connections of the file, and the identity of the command.
pub admit-same :
    (hexdigest : Value → String) (book : Book) (value : Value) (actor : String) (a : Admitted)
    → admit hexdigest book value actor ≡ ok a
    → (a.book.connections ≡ book.connections) × (get "command_id" (as_fields value) ≡ str a.key)
unfolding admit
admit-same hexdigest book value actor a h =
    let (fields, shape, h1) = >>=-eq-ok (closed value command_keys) _ h in
    let (id, named, h2) = >>=-eq-ok (identifier (get "command_id" fields)) _ h1 in
    let (operator, known, h3) = >>=-eq-ok (identifier (str actor)) _ h2 in
    let same =
      admitted_by-same book id (fingerprint hexdigest actor value) actor fields
        (lookup id book.operations) a h3 in
    let (is_obj, exact) = closed-ok value command_keys fields shape in
    (
      same.0,
      ap (λ v. get "command_id" (as_fields v)) is_obj
          ∙ identifier-str (get "command_id" fields) id named
          ∙ ap str (sym same.1),
    )

fence_prior-same :
    (change : Change) (book : Book) (key : String) (o : Option Operation) (fenced : Book)
    → fence_prior change book key o ≡ ok fenced
    → fenced.connections ≡ book.connections
fence_prior-same change book key o fenced h = ground arith

fence_pending-same :
    (change : Change) (book : Book) (key : String) (o : Option String) (fenced : Book)
    → fence_pending change book key o ≡ ok fenced
    → fenced.connections ≡ book.connections
unfolding fence_pending
fence_pending-same change book key none fenced h = ground arith
fence_pending-same change book key (some p) fenced h = elim (Bool-cases (p == key)) [
  | inl t ↦
      ap (λ (b : Book). b.connections) (sym (ok-injective book fenced (sym (if-true _ _ _ t) ∙ h)))
  | inr f ↦
      fence_prior-same change book p (lookup p book.operations) fenced (sym (if-false _ _ _ f) ∙ h)
]

-- A file with the same connections
pub moved :
    (c : String) (a b : Book) → a.connections ≡ b.connections → IsRemoved c b → IsRemoved c a
moved c a b same (item, e, r) = (item, ap (lookup c) same ∙ e, r)

pub bind-other :
    (c : String) (change : Change) (a : Admitted) (value : Value) (b : Bound)
    → IsRemoved c a.book
    → bind change a value ≡ ok b
    → ((b.key == c) ≡ false) × IsRemoved c b.book
unfolding bind
bind-other c change a value b r h =
    let (payload, shape, h1) = >>=-eq-ok (closed value _) _ h in
    let ((key, item), found, h2) =
      >>=-eq-ok (connection_of a.book (get "connection_id" payload)) _ h1 in
    let (kept, h3) = require-eq-ok (not (is_removed item.state)) _ _ h2 in
    let (fenced, f, h4) =
      >>=-eq-ok (fence_pending change a.book a.key item.pending_operation) _ h3 in
    let same = ok-injective _ b h4 in
    let other =
      unremoved-Spares c key item a.book r
        (connection_of-found a.book (get "connection_id" payload) key item found)
        (not_true (is_removed item.state) kept) in
    (
      subst (λ (x : Bound). (x.key == c) ≡ false) same other,
      subst (λ (x : Bound). IsRemoved c x.book) same
          (moved c fenced a.book
            (fence_pending-same change a.book a.key item.pending_operation fenced f) r),
    )
  where
    not_true : (t : Bool) → not t ≡ true → t ≡ false
    not_true t p = ground arith
