-- ===== src/Server/Reads/Cuts.antt =====
-- The cut of the flows in `pcap_flow_extract` (src/mcp_socket_server/server.py).
use package.text.Mathlib.TextBridge.{IsPrefix}
use package.text.Mathlib.TextLemmas.{nil-append, cons-append}
use mcp_socket_server.Prelude.{
  ltb-ge, keep_if, sym, ◌∙◌, ℕ, zero, suc, ◌+◌, min, String, ◌≡◌, refl, ap, ◌⊎◌, inl, inr, Bool,
  true, false, not, List, [], ◌∷◌, length, ltb, arith, Result, ok, err, Bool-cases, if◌then◌else◌,
}
use mcp_socket_server.Errors.{Exn}
use mcp_socket_server.Text.{text_length, text_take}
use mcp_socket_server.Value.{Value, Items, nil, cons, list, text, items_length, items_take, truthy}
use mcp_socket_server.Pool.Scheduler.{TargetResult}
use mcp_socket_server.Server.{count_ok, failed}
use mcp_socket_server.Server.Batch.Reports.{count_ok-failed}
use mcp_socket_server.Server.Reads.{
  max_flows, type_error, Flows, flows_of, cut_flows, FlowReport, flow_report,
}

items_length-items_take :
    (n : ℕ) (vs : Items) → items_length (items_take n vs) ≡ min n (items_length vs)
unfolding items_length items_take
items_length-items_take zero vs = omega arith
items_length-items_take (suc n) nil = omega arith
items_length-items_take (suc n) (cons v vs) = omega (arith, items_length-items_take n vs)

text_length-text_take : (n : ℕ) (s : String) → text_length (text_take n s) ≡ min n (text_length s)
unfolding text_length text_take
text_length-text_take zero s = omega arith
text_length-text_take (suc n) String.[] = omega arith
text_length-text_take (suc n) (String.◌∷◌ c s) = omega (arith, text_length-text_take n s)

abbrev pub items_append : Items → Items → Items
items_append nil ws = ws
items_append (cons v vs) ws = cons v (items_append vs ws)

items_take-append :
    (n : ℕ) (vs : Items) → (rest : Items) × (items_append (items_take n vs) rest ≡ vs)
unfolding items_take
items_take-append zero vs = (vs, refl)
items_take-append (suc n) nil = (nil, refl)
items_take-append (suc n) (cons v vs) =
    let (rest, h) = items_take-append n vs in (rest, ap (cons v) h)

text_take-IsPrefix : (n : ℕ) (s : String) → IsPrefix (text_take n s) s
unfolding text_take
text_take-IsPrefix zero s = (s, nil-append s)
text_take-IsPrefix (suc n) String.[] = (String.[], nil-append String.[])
text_take-IsPrefix (suc n) (String.◌∷◌ c s) =
    let (rest, h) = text_take-IsPrefix n s in
    (rest, cons-append c (text_take n s) rest ∙ ap (String.◌∷◌ c) h)

-- len(v or []), of what has a length
abbrev pub size_of : Value → ℕ
size_of (list vs) = items_length vs
size_of (text s) = text_length s
size_of _ = 0

-- A first part of a list or of a text; of any other value, and of an empty text, the empty list.
abbrev pub IsFirst : Value → Value → Type 0
IsFirst (list vs) (list ws) = (rest : Items) × (items_append ws rest ≡ vs)
IsFirst (list vs) w = ⊥
IsFirst (text s) (text t) = IsPrefix t s
IsFirst (text s) w = (text_length s ≡ 0) × (w ≡ list nil)
IsFirst v w = w ≡ list nil

-- The entry of a success: the first of its flows, a thousand or all, with the number of all.
pub record IsCut (target : String) (v : Value) (f : Flows) : Type 0 where
  pub named : f.target ≡ target
  pub total : f.total ≡ size_of v
  pub first : IsFirst v f.flows
  pub size : size_of f.flows ≡ min max_flows (size_of v)
  pub told : f.truncated ≡ ltb max_flows (size_of v)

-- One entry for each result, in their order.
abbrev pub Matches : List TargetResult → List Flows → Type 0
Matches [] [] = Unit
Matches (r ∷ results) (f ∷ fs) = IsCut r.target r.value f × Matches results fs
Matches _ _ = ⊥

Matches-length :
    (results : List TargetResult) (fs : List Flows)
    → Matches results fs
    → length fs ≡ length results
Matches-length [] [] h = refl
Matches-length (r ∷ results) (f ∷ fs) h = ap suc (Matches-length results fs h.1)
Matches-length [] (f ∷ fs) h = absurd h
Matches-length (r ∷ results) [] h = absurd h

-- A value of which a part can be taken: a list, a text, or one that is false.
abbrev pub is_sized : Value → Bool
is_sized (list vs) = true
is_sized (text s) = true
is_sized v = not (truthy v)

-- A success without one.
abbrev pub Odd : List TargetResult → Type 0
Odd [] = ⊥
Odd (r ∷ results) = ((r.ok ≡ true) × (is_sized r.value ≡ false)) ⊎ Odd results

-- The flows of one success.
abbrev Cut : String → Value → Result Exn Flows → Type 0
Cut target v (ok f) = IsCut target v f
Cut target v (err e) = is_sized v ≡ false

abbrev no_flows : String → Flows
no_flows target = record { target = target; flows = list nil; total = 0; truncated = false }

none_shown :
    (target : String) (v : Value)
    → size_of v ≡ 0
    → IsFirst v (list nil)
    → IsCut target v (no_flows target)
unfolding items_length
none_shown target v empty first = record {
  named = refl;
  total = sym empty;
  first = first;
  size = omega (arith, empty);
  told = sym (ltb-ge max_flows (size_of v) (omega (arith, empty)));
}

unsized :
    (target : String) (v : Value) (b : Bool)
    → is_sized v ≡ not b
    → size_of v ≡ 0
    → IsFirst v (list nil)
    → Cut target v (if b then err type_error else ok (no_flows target))
unsized target v true h empty first = h
unsized target v false h empty first = none_shown target v empty first

empty_text : (s : String) → truthy (text s) ≡ false → text_length s ≡ 0
unfolding truthy text_length
empty_text String.[] h = refl
empty_text (String.◌∷◌ c s) h = cc

flows_of-Cut : (target : String) (v : Value) → Cut target v (flows_of target v)
unfolding flows_of
flows_of-Cut target (list vs) = record {
  named = refl;
  total = refl;
  first = items_take-append max_flows vs;
  size = items_length-items_take max_flows vs;
  told = refl;
}
flows_of-Cut target (text s) = elim (Bool-cases (truthy (text s))) [
  | inl some_text ↦ rw some_text (record {
    named = refl;
    total = refl;
    first = text_take-IsPrefix max_flows s;
    size = text_length-text_take max_flows s;
    told = refl;
  })
  | inr empty ↦
      rw empty (none_shown target (text s) (empty_text s empty) (empty_text s empty, refl))
]
flows_of-Cut target v = unsized target v (truthy v) refl refl refl

abbrev pub successes : List TargetResult → List TargetResult
successes results = keep_if (λ (r : TargetResult). r.ok) results

abbrev CutAll : List TargetResult → Result Exn (List Flows) → Type 0
CutAll results (ok fs) = Matches (successes results) fs
CutAll results (err e) = Odd results

one_entry :
    (r : TargetResult) (results : List TargetResult) (cut : Result Exn Flows)
    (rest : Result Exn (List Flows))
    → r.ok ≡ true
    → Cut r.target r.value cut
    → CutAll results rest
    → CutAll (r ∷ results) (elim cut as (λ _. Result Exn (List Flows)) [
      | err e ↦ err e
      | ok f ↦ elim rest as (λ _. Result Exn (List Flows)) [ err e ↦ err e | ok fs ↦ ok (f ∷ fs) ]
    ])
one_entry r results (err e) rest good h k = inl (good, h)
one_entry r results (ok f) (err e) good h k = inr k
one_entry r results (ok f) (ok fs) good h k = rw good (h, k)

no_entry :
    (r : TargetResult) (results : List TargetResult) (rest : Result Exn (List Flows))
    → r.ok ≡ false
    → CutAll results rest
    → CutAll (r ∷ results) rest
no_entry r results (err e) bad k = inr k
no_entry r results (ok fs) bad k = rw bad k

cut_flows-CutAll : (results : List TargetResult) → CutAll results (cut_flows results)
unfolding cut_flows count_ok
cut_flows-CutAll [] = tt
cut_flows-CutAll (r ∷ results) = entry_or_none (cut_flows-CutAll results) r.ok refl
  where
    rest : Result Exn (List Flows)
    rest = cut_flows results

    entry_or_none :
        CutAll results rest
        → (b : Bool) → r.ok ≡ b
        → CutAll (r ∷ results) (
            if b
            then elim (flows_of r.target r.value) as (λ _. Result Exn (List Flows)) [
              | err e ↦ err e
              | ok f ↦ elim rest as (λ _. Result Exn (List Flows)) [
                | err e ↦ err e
                | ok fs ↦ ok (f ∷ fs)
              ]
            ]
            else rest)
    entry_or_none later true good =
        one_entry r results (flows_of r.target r.value) rest good (flows_of-Cut r.target r.value)
          later
    entry_or_none later false bad = no_entry r results rest bad later

-- What the tool returns or why it raises.
pub record Reported (results : List TargetResult) (rep : FlowReport) : Type 0 where
  pub listed : length rep.results ≡ rep.ok
  pub total : rep.ok + length rep.failed ≡ length results
  pub cuts : Matches (successes results) rep.results

abbrev pub Explained : List TargetResult → Result Exn FlowReport → Type 0
Explained results (ok rep) = Reported results rep
Explained results (err e) = Odd results

-- The report of `pcap_flow_extract` has one failure for each target that has failed, and for each other
-- target, in their order, an entry with its name, a first part of what it has answered, namely a thousand
-- flows or all if there are fewer, the number of all, and whether some are left out. The tool raises only
-- if a target has answered with an object of which no part can be taken.
pub flow_report-Explained : (results : List TargetResult) → Explained results (flow_report results)
unfolding flow_report count_ok
flow_report-Explained results = of_cuts (cut_flows results) (cut_flows-CutAll results)
  where
    of_cuts :
        (r : Result Exn (List Flows))
        → CutAll results r
        → Explained results (elim r as (λ _. Result Exn FlowReport) [
          | err e ↦ err e
          | ok fs ↦ ok (record { ok = count_ok results; failed = failed results; results = fs })
        ])
    of_cuts (err e) h = h
    of_cuts (ok fs) h = record {
      listed = Matches-length (successes results) fs h;
      total = count_ok-failed results;
      cuts = h;
    }
