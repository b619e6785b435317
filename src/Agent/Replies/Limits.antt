-- ===== src/Agent/Replies/Limits.antt =====
-- The bound on the output of `cmd_exec` (src/mcp_socket_server/socket_client.py).
use mcp_socket_server.Prelude.{
  ℕ, zero, suc, ◌≤◌, ◌<◌, String, ◌≡◌, refl, sym, ap, ◌∙◌, true, false, Option, some, ltb, arith,
  Bool-cases, inl, inr, ◌==◌, string_eq, subst,
}
use Prim.Native.String.{String}
use mcp_socket_server.Text.{text_length, text_take}
use mcp_socket_server.Value.{Value, Fields, text, bool, dict, get, put, get-put}
use mcp_socket_server.Agent.Replies.{max_stdout, cut_stdout, cmd_exec_result}

text_length-text_take : (n : ℕ) (s : String) → text_length (text_take n s) ≤ n
unfolding text_length text_take
text_length-text_take zero s = omega arith
text_length-text_take (suc n) String.[] = omega arith
text_length-text_take (suc n) (String.◌∷◌ c s) = omega (arith, text_length-text_take n s)

-- The fields that are returned for those of a reply.
pub record Limited (fs cut : Fields) : Type 0 where
  pub bounded : (s : String) → get "stdout" cut ≡ some (text s) → text_length s ≤ max_stdout
  pub marked :
      (s : String)
      → get "stdout" fs ≡ some (text s)
      → max_stdout < text_length s
      → (get "stdout" cut ≡ some (text (text_take max_stdout s)))
        × (get "stdout_truncated" cut ≡ some (bool true))
  pub others :
      (k : String)
      → (k == "stdout") ≡ false
      → (k == "stdout_truncated") ≡ false
      → get k cut ≡ get k fs

text-injective : {s u : String} → ◌≡◌ {A = Option Value} (some (text s)) (some (text u)) → s ≡ u
text-injective h = cc

ltb-le : {a b : ℕ} → ltb a b ≡ false → b ≤ a
ltb-le h = ground arith

long_stdout-Limited :
    (fs : Fields) (s : String)
    → get "stdout" fs ≡ some (text s)
    → Limited fs
        (put "stdout_truncated" (bool true) (put "stdout" (text (text_take max_stdout s)) fs))
unfolding string_eq
long_stdout-Limited fs s e =
    let mark = λ (k : String).
      get-put k "stdout_truncated" (bool true) (put "stdout" (text (text_take max_stdout s)) fs) in
    let out = λ (k : String). get-put k "stdout" (text (text_take max_stdout s)) fs in
    let stored = mark "stdout" ∙ out "stdout" in
    record {
      bounded = λ u h.
          let q = text-injective (sym stored ∙ h) in
          subst (λ w. text_length w ≤ max_stdout) q (text_length-text_take max_stdout s);
      marked = λ u h l. (
        stored ∙ ap (λ w. some (text (text_take max_stdout w))) (text-injective (sym e ∙ h)),
        mark "stdout_truncated",
      );
      others = λ k n m. mark k ∙ rw m (out k ∙ rw n refl);
    }

cut_stdout-Limited :
    (fs : Fields) (o : Option Value) → get "stdout" fs ≡ o → Limited fs (cut_stdout fs o)
unfolding cut_stdout
cut_stdout-Limited fs (some (text s)) e = elim (Bool-cases (ltb max_stdout (text_length s))) [
  | inl long ↦ rw (long, cut_stdout) (long_stdout-Limited fs s e)
  | inr short ↦
      rw (short, cut_stdout)
        (record {
          bounded = λ u h.
              subst (λ w. text_length w ≤ max_stdout) (text-injective (sym e ∙ h)) (ltb-le short);
          marked = λ u h l. absurd (
              let q = subst (λ w. max_stdout < text_length w) (text-injective (sym h ∙ e)) l in
              ground (arith, ltb-le short));
          others = λ k n m. refl;
        })
]
cut_stdout-Limited fs o e = record {
  bounded = λ u h. cc;
  marked = λ u h l. cc;
  others = λ k n m. refl;
}

-- The output that `cmd_exec` returns has at most 64K characters; a longer one is cut there and marked as
-- truncated, and every other field is as the agent sent it.
pub cmd_exec_result-Limited :
    (fs : Fields) → (cut : Fields) × (cmd_exec_result (dict fs) ≡ dict cut) × Limited fs cut
unfolding cmd_exec_result
cmd_exec_result-Limited fs =
    (cut_stdout fs (get "stdout" fs), refl, cut_stdout-Limited fs (get "stdout" fs) refl)
