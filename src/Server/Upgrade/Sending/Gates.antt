-- ===== src/Server/Upgrade/Sending/Gates.antt =====
-- What `upgrade_run` (src/mcp_socket_server/server.py) has checked of a target before each of its calls.
use mcp_socket_server.Prelude.{
  String, ◌≡◌, refl, sym, ap, ◌∙◌, Bool, true, false, Option, none, some, List, any, Result, ok,
  err, arith,
}
use mcp_socket_server.Errors.{Exn}
use mcp_socket_server.Text.Signed.{ℤ}
use mcp_socket_server.Value.{Value, dict, Fields, is_set}
use mcp_socket_server.Upgrades.Push.{PushError, push_binary}
use mcp_socket_server.Server.Listening.{tuple_ge}
use mcp_socket_server.Server.Upgrade.Sending.{
  Call, asks_version, pushes, applies, Answers, Attempt, applied, after_push, version_parts,
  first_upgradable, tell, gate, str_of, after_version, attempt,
}

abbrev pub is_push : Call → Bool
is_push pushes = true
is_push _ = false

abbrev pub is_apply : Call → Bool
is_apply applies = true
is_apply _ = false

-- The version of a target is a tuple of numbers that is at least 1.8.0.
pub record IsUpgradable (cur : String) : Type 0 where
  pub parts : List ℤ
  pub parsed : version_parts cur ≡ some parts
  pub recent : tuple_ge parts first_upgradable ≡ true

-- The service has taken the binary.
pub record IsPushed (pushed : Result PushError String) : Type 0 where
  pub staging : String
  pub answered : pushed ≡ ok staging

-- The target has confirmed the request.
pub record IsConfirmed (reply : Result Exn Value) : Type 0 where
  pub fields : Fields
  pub answered : reply ≡ ok (dict fields)
  pub silent : is_set "error" fields ≡ false
  pub confirmed : is_set "ok" fields ≡ true

gate_push :
    (cur : String) (go : Attempt) (o : Option (List ℤ))
    → any is_push (gate cur go o).0 ≡ true
    → (parts : List ℤ) × ((o ≡ some parts) × (tuple_ge parts first_upgradable ≡ true))
unfolding gate
gate_push cur go none h = cc
gate_push cur go (some parts) h = (parts, (refl, ground arith))

gate_apply :
    (cur : String) (go : Attempt) (o : Option (List ℤ))
    → any is_apply (gate cur go o).0 ≡ true
    → any is_apply go.0 ≡ true
unfolding gate
gate_apply cur go none h = cc
gate_apply cur go (some parts) h = ground arith

gate_ok :
    (cur done : String) (go : Attempt) (o : Option (List ℤ))
    → (gate cur go o).1 ≡ ok done
    → gate cur go o ≡ go
unfolding gate
gate_ok cur done go none h = cc
gate_ok cur done go (some parts) h = ground arith

after_push_apply :
    (cur : String) (p : Result PushError String) (reply : Result Exn Value)
    → any is_apply (after_push cur p reply).0 ≡ true
    → IsPushed p
unfolding after_push
after_push_apply cur (err e) reply h = cc
after_push_apply cur (ok staging) reply h = record { staging = staging; answered = refl }

applied_ok :
    (cur done : String) (reply : Result Exn Value)
    → (applied cur reply).1 ≡ ok done
    → IsConfirmed reply
unfolding applied
applied_ok cur done (err e) h = cc
applied_ok cur done (ok (dict fs)) h = record {
  fields = fs;
  answered = refl;
  silent = ground arith;
  confirmed = ground arith;
}
applied_ok cur done (ok v) h = cc

after_push_ok :
    (cur done : String) (p : Result PushError String) (reply : Result Exn Value)
    → (after_push cur p reply).1 ≡ ok done
    → (any is_apply (after_push cur p reply).0 ≡ true) × IsConfirmed reply
unfolding after_push
after_push_ok cur done (err e) reply h = cc
after_push_ok cur done (ok staging) reply h = (refl, applied_ok cur done reply h)

module _ (str : Value → String) (host binary ver sum : String) (force : Bool) (a : Answers) where
  -- What each call, and a success, has behind it.
  pub record Gated (r : Attempt) : Type 0 where
    pub before_push :
        any is_push r.0 ≡ true → (v : Value) × ((a.version ≡ ok v) × IsUpgradable (str_of str v))
    pub before_apply :
        any is_apply r.0 ≡ true → IsPushed (push_binary a.read a.service host binary ver 9001)
    pub on_success :
        (cur : String)
        → r.1 ≡ ok cur
        → (any is_push r.0 ≡ true)
          × ((any is_apply r.0 ≡ true) × IsConfirmed (a.apply ver sum force))

  gated :
      (r : Result Exn Value)
      → a.version ≡ r
      → Gated (tell asks_version (after_version str host binary ver sum force a r))
  unfolding after_version
  gated (err e) answered = record {
    before_push = λ h. cc;
    before_apply = λ h. cc;
    on_success = λ cur h. cc;
  }
  gated (ok v) answered =
      let cur = str_of str v in
      let pushed = push_binary a.read a.service host binary ver 9001 in
      let go : Attempt = tell pushes (after_push cur pushed (a.apply ver sum force)) in
      record {
        before_push = λ h.
            let (parts, (parsed, recent)) = gate_push cur go (version_parts cur) h in
            (v, (answered, record { parts = parts; parsed = parsed; recent = recent }));
        before_apply = λ h.
            after_push_apply cur pushed (a.apply ver sum force)
              (gate_apply cur go (version_parts cur) h);
        on_success = λ done h.
            let opened = gate_ok cur done go (version_parts cur) h in
            let (asked, confirmed) =
              after_push_ok cur done pushed (a.apply ver sum force)
                (sym (ap (λ (r : Attempt). r.1) opened) ∙ h) in
            (rw opened refl, (rw opened asked, confirmed));
      }

  -- `upgrade_run` pushes the binary to a target only if the target has named a version of at least 1.8.0;
  -- it asks the target to apply it only if the push was accepted; and it counts the target as pushed to
  -- only if both calls were made and the reply has a true `ok` and no error.
  pub attempt-Gated : Gated (attempt str host binary ver sum force a)
  unfolding attempt
  attempt-Gated = gated a.version refl
