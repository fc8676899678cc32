-- ===== src/Configuration/Lost.antt =====
-- What a repeated command of model_configuration.py returns.
use platform_engineering.Prelude.{
  ◌≡◌, sym, ap, ◌∙◌, String, Option, none, some, eq_iff, eq_refl, arith, refl, true, [], ◌∷◌,
  is_empty,
}
use platform_engineering.Dict.{Dict, lookup, lookup-insert}
use platform_engineering.Json.{Value, null, bool, int, str, arr, obj, Fields, get, as_fields}
use platform_engineering.Result.{ok}
use platform_engineering.Configuration.{Owner, Receipt, State, fingerprint}
use platform_engineering.Configuration.Commands.{command_key, command, retained}
use platform_engineering.Configuration.Step.{Advances}
use platform_engineering.Configuration.Accepted.{Accepted, replayed, advanced, command-Accepted}
use platform_engineering.Configuration.Invariant.{
  IsValid, read-IsValid, command-IsValid, record_outcome-fields,
}
use platform_engineering.Configuration.Replay.{
  command-IsCommand, command-settled, Later, here, commanded, observed,
}

-- A text that is accepted as an identity is its own key.
command_key-str : (id key : String) → command_key (str id) ≡ some key → key ≡ id
command_key-str id key h = ground arith

same_id :
    (fields f : Fields) (id : String)
    → obj fields ≡ obj f
    → get "command_id" fields ≡ str id
    → get "command_id" f ≡ str id
same_id fields f id same e = sym (ap (λ v. get "command_id" (as_fields v)) same) ∙ e

module _ (hexdigest : Value → String) (owner : Owner) (s : State) (fields : Fields)
    (id actor : String) (verified : Option Fields) (receipt : Receipt) (s' : State)
    (e : get "command_id" fields ≡ str id) where
  -- The receipt is retained under the identity, and is of this content and actor.
  Accepted-retained :
      Accepted hexdigest owner s (obj fields) actor verified receipt s'
      → (lookup id s'.commands ≡ some receipt)
        × (receipt.command_digest ≡ fingerprint hexdigest actor (obj fields))
  Accepted-retained (replayed f same r d state) =
      (ap (λ (t : State). lookup id t.commands) state ∙ rw (same_id fields f id same e) at r, d)
  Accepted-retained (advanced f key same r k n step) =
      let e' = same_id fields f id same e in
      let own : key ≡ id = command_key-str id key (rw e' at k) in
      (
        rw (step.commands, lookup-insert, own, eq_refl id),
        step.fingerprinted ∙ ap (fingerprint hexdigest actor) (sym same),
      )

-- A state without receipts has none.
no_receipts :
    (k : String) (r : Receipt) (commands : Dict Receipt)
    → is_empty commands ≡ true
    → lookup k commands ≡ some r
    → ⊥
unfolding lookup
no_receipts k r [] h e = cc
no_receipts k r (x ∷ xs) h e = cc

-- A new command keeps every receipt: its identity is new, or is not a text and there were none.
Advances-keeps :
    (hexdigest : Value → String) (owner : Owner) (s : State) (fields : Fields) (key actor : String)
    (verified : Option Fields) (receipt : Receipt) (s' : State) (v : Value)
    → get "command_id" fields ≡ v
    → retained v s ≡ none
    → command_key v ≡ some key
    → Advances hexdigest owner s fields key actor verified receipt s'
    → (k : String) (r : Receipt) → lookup k s.commands ≡ some r
    → lookup k s'.commands ≡ some r
Advances-keeps hexdigest owner s fields key actor verified receipt s' (str id) at fresh c step k r
      h =
    ground (
      arith,
      step.commands,
      lookup-insert key k receipt s.commands,
      eq_iff key k,
      command_key-str id key c,
      fresh,
    )
Advances-keeps hexdigest owner s fields key actor verified receipt s' null at fresh c step k r h =
    absurd (no_receipts k r s.commands (rw at at step.sortable) h)
Advances-keeps hexdigest owner s fields key actor verified receipt s' (bool b) at fresh c step k r
      h =
    absurd (no_receipts k r s.commands (rw at at step.sortable) h)
Advances-keeps hexdigest owner s fields key actor verified receipt s' (int n) at fresh c step k r
      h =
    absurd (no_receipts k r s.commands (rw at at step.sortable) h)
Advances-keeps hexdigest owner s fields key actor verified receipt s' (arr xs) at fresh c step k r
      h =
    absurd (no_receipts k r s.commands (rw at at step.sortable) h)
Advances-keeps hexdigest owner s fields key actor verified receipt s' (obj d) at fresh c step k r
      h =
    absurd (no_receipts k r s.commands (rw at at step.sortable) h)

-- Every older receipt is kept.
Accepted-keeps :
    (hexdigest : Value → String) (owner : Owner) (s : State) (value : Value) (actor : String)
    (verified : Option Fields) (receipt : Receipt) (s' : State)
    → Accepted hexdigest owner s value actor verified receipt s'
    → (k : String) (r : Receipt) → lookup k s.commands ≡ some r
    → lookup k s'.commands ≡ some r
Accepted-keeps hexdigest owner s value actor verified receipt s' (replayed f same r d state) k p h =
    ap (λ (t : State). lookup k t.commands) state ∙ h
Accepted-keeps hexdigest owner s value actor verified receipt s' (advanced f key same r c n step) k
      p h =
    Advances-keeps hexdigest owner s f key actor verified receipt s' (get "command_id" f) refl r c
      step k p h

module _ (hexdigest : Value → String) (owner : Owner) (s : State) where
  Later-IsValid :
      {t : State}
      → Later hexdigest owner s t
      → IsValid hexdigest owner s
      → IsValid hexdigest owner t
  Later-IsValid here v = v
  Later-IsValid (commanded now value actor verified account receipt l h) v =
      command-IsValid hexdigest owner now _ value actor verified account receipt _
        (Later-IsValid l v) h
  Later-IsValid (observed {t = t} {u = u} now model code reference account l e) v =
      let w = Later-IsValid l v in
      let kept = record_outcome-fields hexdigest owner now t u model code reference account e in
      record {
        current = rw (kept.0, kept.1, kept.2) w.current;
        accepted = rw kept.2 w.accepted;
        bounded = rw (kept.0, kept.2) w.bounded;
        receipts = rw (kept.2, kept.3) w.receipts;
      }

  Later-keeps :
      {t : State} (k : String) (r : Receipt)
      → Later hexdigest owner s t
      → lookup k s.commands ≡ some r
      → lookup k t.commands ≡ some r
  Later-keeps k r here h = h
  Later-keeps k r (commanded {t = t} {u = u} now value actor verified account receipt l c) h =
      Accepted-keeps hexdigest owner t value actor verified receipt u
        (command-Accepted hexdigest owner now actor verified account t value receipt u c) k r
        (Later-keeps k r l h)
  Later-keeps k r (observed {t = t} {u = u} now model code reference account l e) h =
      ap (lookup k) (record_outcome-fields hexdigest owner now t u model code reference account e).3
      ∙ Later-keeps k r l h

-- A command whose identity is a text can be sent again after any later commands, whatever their
-- identities, and observations, whatever the clock and the verified metadata then are: it returns its first receipt and changes
-- nothing.
pub command-replays :
    (hexdigest : Value → String) (owner : Owner) (now : String) (s : State) (fields : Fields)
    (id actor : String) (verified : Option Fields) (account : Value) (receipt : Receipt)
    (s' : State)
    → IsValid hexdigest owner s
    → get "command_id" fields ≡ str id
    → command hexdigest owner now s (obj fields) actor verified account ≡ ok (receipt, s')
    → (t : State) (now' : String) (verified' : Option Fields) (account' : Value)
    → Later hexdigest owner s' t
    → command hexdigest owner now' t (obj fields) actor verified' account' ≡ ok (receipt, t)
command-replays hexdigest owner now s fields id actor verified account receipt s' v e h t now'
      verified' account' l =
    let (key, expected, c) =
      command-IsCommand hexdigest owner now s fields actor verified account receipt s' h in
    let accepted =
      command-Accepted hexdigest owner now actor verified account s (obj fields) receipt s' h in
    let (stored, digests) =
      Accepted-retained hexdigest owner s fields id actor verified receipt s' e accepted in
    let v' =
      command-IsValid hexdigest owner now s (obj fields) actor verified account receipt s' v h in
    let found = Later-keeps hexdigest owner s' id receipt l stored in
    command-settled hexdigest owner now' t fields actor verified' account' key expected c
      (read-IsValid hexdigest owner t (Later-IsValid hexdigest owner s' l v'))
    ∙ rw (e, found, digests, eq_refl (fingerprint hexdigest actor (obj fields)))
