-- ===== src/Connections/Kept.antt =====
-- The parts of `ProviderConnections` (provider_connections.py) that do not change the connections file,
-- and the writes of it, for any property of the file.
use platform_engineering.Prelude.{ℕ, String, Option, none}
use platform_engineering.Json.{Value, null, Fields}
use platform_engineering.Result.{Result, ok, err}
use platform_engineering.Program.Keeps.{
  Keeps, OnOk, bind-Keeps, then-Keeps, check-Keeps, lift-any, if-Keeps, returning-Keeps,
  world-Keeps,
}
use platform_engineering.Configuration.{State, Receipt}
use platform_engineering.Configuration.Commands
use platform_engineering.Connections.{Book, Connection, Operation, finish}
use platform_engineering.Connections.Calls.{
  Vault, World, retained_book, save, read_vault, write_vault, put_document,
}
use platform_engineering.Connections.Commands.{Service, finish_call, fence, configured, configure}

anything {κ} : {A : Type κ} (r : Result A) → OnOk (λ a. Unit) r
anything (ok a) = tt
anything (err e) = tt

module _ {vault : Vault} (P : Book → Type 0) where
  abbrev pub Holds : World vault → Type 0
  Holds w = P w.book

  pub save-Keeps : (book : Book) → P book → Keeps Holds (λ done. Unit) (save book)
  unfolding save
  save-Keeps book p = record { keeps = λ w q. (p, tt) }

  pub retained_book-Keeps : Keeps Holds P retained_book
  unfolding retained_book
  retained_book-Keeps = record { keeps = λ w p. (p, p) }

  pub read_vault-Keeps :
      (id : String) (version : Option ℕ) → Keeps Holds (λ x. Unit) (read_vault id version)
  unfolding read_vault
  read_vault-Keeps id version = then-Keeps Holds (check-Keeps Holds _ _) (
      then-Keeps Holds (check-Keeps Holds _ _) (
        bind-Keeps Holds Holds (world-Keeps Holds)
          λ w u. bind-Keeps Holds (λ d. Unit) (lift-any Holds _) λ d v. lift-any Holds _))

  put_document-Keeps :
      (id : String) (document : Value) → Keeps Holds (λ x. Unit) (put_document id document)
  unfolding put_document
  put_document-Keeps id document = record {
    keeps = λ w p. (p, anything ((vault.post w.store id document).1));
  }

  pub write_vault-Keeps :
      (id : String) (version : ℕ) (content : Fields)
      → Keeps Holds (λ x. Unit) (write_vault id version content)
  unfolding write_vault
  write_vault-Keeps id version content =
      then-Keeps Holds (check-Keeps Holds _ _)
        (bind-Keeps Holds (λ w. Unit) (put_document-Keeps _ _) λ answer u. check-Keeps Holds _ _)

  pub fence-Keeps :
      (item : Connection) (operation : Operation) → Keeps Holds (λ x. Unit) (fence item operation)
  unfolding fence
  fence-Keeps item operation =
      bind-Keeps Holds (λ r. Unit) (read_vault-Keeps _ _)
        λ r u. if-Keeps Holds _ (returning-Keeps Holds _) (write_vault-Keeps _ _ _)

  pub configure-Keeps :
      (service : Service) (value : Value) (actor : String)
      → Keeps Holds (λ x. Unit) (configure service value actor)
  unfolding configure
  configure-Keeps service value actor = record {
    keeps = λ w p. kept_by w p (
        Commands.command service.hexdigest service.owner service.configuration_now w.models value
          actor none null);
  }
    where
      kept_by :
          (w : World vault)
          → P w.book
          → (r : Result (Receipt × State))
          → P (configured w r).0.book × OnOk (λ x. Unit) (configured w r).1
      kept_by w p (ok (receipt, models)) = (p, tt)
      kept_by w p (err e) = (p, tt)

  pub finish_call-Keeps :
      (service : Service) (book : Book) (operation_key : String) (operation : Operation)
      (key : String) (item : Connection)
      → P (
          (finish service.hexdigest service.presets service.now book operation_key operation key
            item).1)
      → Keeps Holds (λ x. Unit) (finish_call service book operation_key operation key item)
  unfolding finish_call
  finish_call-Keeps service book operation_key operation key item p =
      then-Keeps Holds (save-Keeps _ p) (returning-Keeps Holds _)
