-- ===== src/Bridge/Run/Answer.antt =====
-- The call of `Run`: what it leaves in the entries of `values` behind the inputs.
use onnxcraft.Common.{
  ℕ, ◌+◌, ◌≤◌, ◌≡◌, refl, List, [], ◌∷◌, ◌++◌, Option, none, some, arith, length,
}
use onnxcraft.Native.Ledger.{Kind, Resource, resource, count, count-append}
use onnxcraft.Native.Machine.{World, Reply, success, failure, block_of}
use onnxcraft.Native.Rules.{
  Ensures, ensures, bind, Holds, Holds-Same, Same, Same-sym, Live, opt_owned, acquire-Holds,
  block_of-Holds, call-Holds,
}
use onnxcraft.Native.Calls.{uses_all-Holds}
use onnxcraft.Ort.Api.{OrtApi, RunReply, ran, stopped}
use onnxcraft.Ort.Calls.{values_owned, fill_outputs, run_reply, ort_run}
use onnxcraft.Bridge.Run.Owned.{values_owned-cons, Live-among}

-- Every entry is a value.
abbrev pub AllSome : List (Option ℕ) → Type 0
AllSome [] = Unit
AllSome (none ∷ vs) = ⊥
AllSome (some v ∷ vs) = AllSome vs

-- The entries after `Run`, with `rest` owned next to them.
pub record Filling {S : Type 0} (base rest : List Resource) (Full : List (Option ℕ) → Type 0)
    (n : ℕ) (vs : List (Option ℕ)) (w : World S) : Type 0 where
  pub sized : length vs ≡ n
  pub full : Full vs
  pub held : Holds base (values_owned vs ++ rest) w

pub data RunAnswered {S : Type 0} (base rest : List Resource) (n : ℕ)
    : Reply (Unit {0}) × List (Option ℕ) → World S → Type 0 where
  run_done :
      {vs : List (Option ℕ)} {w : World S}
      → length vs ≡ n
      → AllSome vs
      → Holds base (values_owned vs ++ rest) w
      → RunAnswered base rest n (success tt, vs) w
  run_failed :
      {st : ℕ} {vs : List (Option ℕ)} {w : World S}
      → length vs ≡ n
      → Holds base (resource Kind.status_handle st ∷ (values_owned vs ++ rest)) w
      → RunAnswered base rest n (failure st, vs) w

-- Moving an entry across what follows.
Same-entry :
    (v : Option ℕ) (vs : List (Option ℕ)) (rest : List Resource)
    → Same
        (values_owned vs ++ (opt_owned Kind.value_handle v ++ rest))
        (values_owned (v ∷ vs) ++ rest)
Same-entry v vs rest =
    let own = opt_owned Kind.value_handle v in
    record {
      counts = λ q. omega (
        arith,
        values_owned-cons q v vs,
        count-append q (values_owned vs) (own ++ rest),
        count-append q own rest,
        count-append q (values_owned (v ∷ vs)) rest,
      );
    }

Live-more :
    (base own : List Resource) (o : Option ℕ)
    → Live base [] (opt_owned Kind.run_options_handle o)
    → Live base own (opt_owned Kind.run_options_handle o)
Live-more base own none h = tt
Live-more base own (some o) h = omega (arith, h.0)

module _ {S : Type 0} {base : List Resource} where
  fill_outputs-Holds :
      (f : ℕ → Option ℕ) (i : ℕ) (vs : List (Option ℕ)) (rest : List Resource) {w : World S}
      → Holds base (values_owned vs ++ rest) w
      → Ensures (Filling base rest (λ _. Unit) (length vs)) (fill_outputs f i vs w)
  unfolding fill_outputs
  fill_outputs-Holds f i [] rest h = ensures (record { sized = refl; full = tt; held = h })
  fill_outputs-Holds f i (some v ∷ vs) rest h =
      let own = resource Kind.value_handle v ∷ [] in
      bind
        (fill_outputs-Holds f (i + 1) vs (own ++ rest)
          (Holds-Same h (Same-sym (Same-entry (some v) vs rest))))
        λ us w₁ q. ensures (record {
          sized = omega (arith, q.sized);
          full = tt;
          held = Holds-Same q.held (Same-entry (some v) us rest);
        })
  fill_outputs-Holds f i (none ∷ vs) rest h =
      bind (block_of-Holds Kind.value_handle (f i) h) λ v w₁ e.
        let own = opt_owned Kind.value_handle v in
        bind
          (fill_outputs-Holds f (i + 1) vs (own ++ rest) (
            Holds-Same e.1 (record {
              counts = λ q. omega (
                arith,
                count-append q own (values_owned vs ++ rest),
                count-append q (values_owned vs) rest,
                count-append q own rest,
                count-append q (values_owned vs) (own ++ rest),
              );
            })))
          λ us w₂ q. ensures (record {
            sized = omega (arith, q.sized);
            full = tt;
            held = Holds-Same q.held (Same-entry v us rest);
          })

  -- Where each entry that is NULL gets a value.
  fill_all-Holds :
      (f : ℕ → ℕ) (i : ℕ) (vs : List (Option ℕ)) (rest : List Resource) {w : World S}
      → Holds base (values_owned vs ++ rest) w
      → Ensures (Filling base rest AllSome (length vs)) (fill_outputs (λ j. some (f j)) i vs w)
  unfolding fill_outputs block_of
  fill_all-Holds f i [] rest h = ensures (record { sized = refl; full = tt; held = h })
  fill_all-Holds f i (some v ∷ vs) rest h =
      let own = resource Kind.value_handle v ∷ [] in
      bind
        (fill_all-Holds f (i + 1) vs (own ++ rest)
          (Holds-Same h (Same-sym (Same-entry (some v) vs rest))))
        λ us w₁ q. ensures (record {
          sized = omega (arith, q.sized);
          full = q.full;
          held = Holds-Same q.held (Same-entry (some v) us rest);
        })
  fill_all-Holds f i (none ∷ vs) rest h =
      let own = resource Kind.value_handle (f i) ∷ [] in
      bind (acquire-Holds Kind.value_handle (f i) h) λ _ w₁ h₁.
        bind
          (fill_all-Holds f (i + 1) vs (own ++ rest)
            (Holds-Same h₁ (Same-sym (Same-entry (some (f i)) vs rest))))
          λ us w₂ q. ensures {a = some (f i) ∷ us} (record {
            sized = omega (arith, q.sized);
            full = q.full;
            held = Holds-Same q.held (Same-entry (some (f i)) us rest);
          })

  run_reply-Answered :
      (vs : List (Option ℕ)) (r : RunReply) (rest : List Resource) {w : World S}
      → Holds base (values_owned vs ++ rest) w
      → Ensures (RunAnswered base rest (length vs)) (run_reply vs r w)
  unfolding run_reply
  run_reply-Answered vs (ran f) rest h =
      bind (fill_all-Holds f 0 vs rest h) λ us w₁ q. ensures (run_done q.sized q.full q.held)
  run_reply-Answered vs (stopped st f) rest h = bind (fill_outputs-Holds f 0 vs rest h) λ us w₁ q.
      bind (acquire-Holds Kind.status_handle st q.held) λ _ w₂ h₂. ensures (run_failed q.sized h₂)

  pub ort_run-Answered :
      (api : OrtApi S) (a s : ℕ) (options : Option ℕ) (ins xs outs ys : List (Option ℕ))
      (rest : List Resource) {w : World S}
      → 1 ≤ count (resource Kind.library_handle a) base
      → 1 ≤ count (resource Kind.session_handle s) base
      → Live base [] (opt_owned Kind.run_options_handle options)
      → Holds base (values_owned ys ++ (values_owned xs ++ rest)) w
      → Ensures
          (RunAnswered base (values_owned xs ++ rest) (length ys))
          (ort_run api a s options ins xs outs ys w)
  unfolding ort_run
  ort_run-Answered api a s options ins xs outs ys rest served loaded given h =
      let own = values_owned ys ++ (values_owned xs ++ rest) in
      bind
        (uses_all-Holds (resource Kind.library_handle a ∷ resource Kind.session_handle s ∷ []) h
          (omega arith))
        λ _ w₁ h₁.
          bind
            (uses_all-Holds (opt_owned Kind.run_options_handle options) h₁
              (Live-more base own options given))
            λ _ w₂ h₂.
              bind
                (uses_all-Holds (values_owned xs) h₂ (
                  Live-among base own (values_owned xs) λ q. omega (
                    arith,
                    count-append q (values_owned ys) (values_owned xs ++ rest),
                    count-append q (values_owned xs) rest,
                  )))
                λ _ w₃ h₃.
                  bind
                    (uses_all-Holds (values_owned ys) h₃ (
                      Live-among base own (values_owned ys) λ q.
                        omega (arith, count-append q (values_owned ys) (values_owned xs ++ rest))))
                    λ _ w₄ h₄.
                      bind (call-Holds (api.run s options ins xs outs ys) h₄)
                        λ r w₅ h₅. run_reply-Answered ys r (values_owned xs ++ rest) h₅
