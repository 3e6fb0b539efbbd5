-- ===== src/Native/Rules.antt =====
-- Total correctness of C code: it runs without a fault, and ends in a state that the condition
-- describes. `Holds base own` says what is live: what was live before, and `own` on top.
use onnxcraft.Common.{
  ℕ, ◌+◌, ◌≤◌, ◌≡◌, refl, sym, List, [], ◌∷◌, ◌++◌, Option, none, some, arith, leb, true,
}
use onnxcraft.Native.Ledger.{Kind, Resource, resource, count, one_self, count-erase, count-append}
use onnxcraft.Native.Machine.{
  World, Run, done, M, Reply, success, failure, and_then, acquire, release, uses, call, status_of,
  handle_of, block_of, when_some,
}

pub data Ensures {S A : Type 0} (P : A → World S → Type 0) : Run S A → Type 0 where
  ensures : {a : A} {w : World S} → P a w → Ensures P (done a w)

module _ {S : Type 0} where
  pub bind :
      {A B : Type 0} {P : A → World S → Type 0} {Q : B → World S → Type 0} {r : Run S A}
      {k : A → M S B}
      → Ensures P r
      → ((a : A) (w : World S) → P a w → Ensures Q (k a w))
      → Ensures Q (and_then r k)
  bind (ensures p) next = next _ _ p

  pub mono :
      {A : Type 0} {P Q : A → World S → Type 0} {r : Run S A}
      → Ensures P r
      → ((a : A) (w : World S) → P a w → Q a w)
      → Ensures Q r
  mono (ensures p) weaken = ensures (weaken _ _ p)

-- What is live is `base` and `own`, each as often as the two list it.
pub record Holds {S : Type 0} (base own : List Resource) (w : World S) : Type 0 where
  pub live : (q : Resource) → count q w.heap ≡ count q base + count q own

-- The same resources, each as often.
pub record Same (xs ys : List Resource) : Type 0 where
  pub counts : (q : Resource) → count q xs ≡ count q ys

pub Same-append_comm : (xs ys : List Resource) → Same (xs ++ ys) (ys ++ xs)
Same-append_comm xs ys = record {
  counts = λ q. omega (arith, count-append q xs ys, count-append q ys xs);
}

pub Same-refl : (xs : List Resource) → Same xs xs
Same-refl xs = record { counts = λ q. refl }

pub Same-sym : {xs ys : List Resource} → Same xs ys → Same ys xs
Same-sym s = record { counts = λ q. sym (s.counts q) }

pub Same-cons : (r : Resource) {xs ys : List Resource} → Same xs ys → Same (r ∷ xs) (r ∷ ys)
Same-cons r s = record { counts = λ q. omega (arith, s.counts q) }

pub Same-front :
    (r : Resource) (xs ys : List Resource) {zs : List Resource}
    → Same (xs ++ ys) zs
    → Same (xs ++ (r ∷ ys)) (r ∷ zs)
Same-front r xs ys s = record {
  counts = λ q. omega (arith, s.counts q, count-append q xs ys, count-append q xs (r ∷ ys));
}

-- Each of the listed resources is live when `base` and `own` are.
abbrev pub Live : List Resource → List Resource → List Resource → Type 0
Live base own [] = Unit
Live base own (r ∷ rs) = (1 ≤ count r base + count r own) × Live base own rs

-- How the answer of a call is owned, on top of `own`.
pub data Answered {S A : Type 0} (base : List Resource) (new : A → List Resource)
    (own : List Resource) : Reply A → World S → Type 0 where
  succeeded :
      {a : A} {w : World S} → Holds base (new a ++ own) w → Answered base new own (success a) w
  failed :
      {st : ℕ} {w : World S}
      → Holds base (resource Kind.status_handle st ∷ own) w
      → Answered base new own (failure st) w

abbrev pub new_handle : Kind → ℕ → List Resource
new_handle k p = resource k p ∷ []

abbrev pub opt_owned : Kind → Option ℕ → List Resource
opt_owned k none = []
opt_owned k (some p) = resource k p ∷ []

abbrev pub nothing_new : {A : Type 0} → A → List Resource
nothing_new a = []

module _ {S : Type 0} {base : List Resource} where
  pub Holds-Same :
      {xs ys : List Resource} {w : World S} → Holds base xs w → Same xs ys → Holds base ys w
  Holds-Same h s = record { live = λ q. omega (arith, h.live q, s.counts q) }

  -- What is owned but not touched may be counted among what was live before, and back.
  pub Holds-frame :
      (own : List Resource) {xs : List Resource} {w : World S}
      → Holds base own w
      → Same xs []
      → Holds (own ++ base) xs w
  Holds-frame own h s = record {
    live = λ q. omega (arith, h.live q, s.counts q, count-append q own base);
  }

  pub Holds-unframe :
      (own : List Resource) {xs ys : List Resource} {w : World S}
      → Holds (own ++ base) xs w
      → Same (xs ++ own) ys
      → Holds base ys w
  Holds-unframe own {xs} h s = record {
    live = λ q. omega (arith, h.live q, s.counts q, count-append q own base, count-append q xs own);
  }

  pub acquire-Holds :
      (k : Kind) (p : ℕ) {own : List Resource} {w : World S}
      → Holds base own w
      → Ensures (λ _ w'. Holds base (resource k p ∷ own) w') (acquire k p w)
  unfolding acquire
  acquire-Holds k p h = ensures (record { live = λ q. omega (arith, h.live q) })

  live_now :
      (r : Resource) (own rest : List Resource) (w : World S)
      → Holds base own w
      → Same own (r ∷ rest)
      → 1 ≤ count r w.heap
  live_now r own rest w h s = omega (arith, h.live r, s.counts r, one_self r)

  pub release-Holds :
      (k : Kind) (p : ℕ) (rest : List Resource) {own : List Resource} {w : World S}
      → Holds base own w
      → Same own (resource k p ∷ rest)
      → Ensures (λ _ w'. Holds base rest w') (release k p w)
  unfolding release
  release-Holds k p rest {own} {w} h s =
      let alive = live_now (resource k p) own rest w h s in
      let ok : leb 1 (count (resource k p) w.heap) ≡ true = ground arith in
      rw ok (
        ensures (record {
          live =
              λ q. omega (arith, count-erase q (resource k p) w.heap alive, h.live q, s.counts q);
        }))

  pub uses-Holds :
      (k : Kind) (p : ℕ) {own : List Resource} {w : World S}
      → Holds base own w
      → 1 ≤ count (resource k p) base + count (resource k p) own
      → Ensures (λ _ w'. Holds base own w') (uses k p w)
  unfolding uses
  uses-Holds k p {own} {w} h alive =
      let now : 1 ≤ count (resource k p) w.heap = omega (arith, h.live (resource k p)) in
      let ok : leb 1 (count (resource k p) w.heap) ≡ true = ground arith in rw ok (ensures h)

  pub call-Holds :
      {A : Type 0} (f : S → A × S) {own : List Resource} {w : World S}
      → Holds base own w
      → Ensures (λ _ w'. Holds base own w') (call f w)
  unfolding call
  call-Holds f h = ensures (record { live = h.live })

  pub status_of-Answered :
      {A : Type 0} (r : Reply A) {own : List Resource} {w : World S}
      → Holds base own w
      → Ensures (Answered base nothing_new own) (status_of r w)
  unfolding status_of acquire
  status_of-Answered (success a) h = ensures (succeeded h)
  status_of-Answered (failure st) h =
      ensures (failed (record { live = λ q. omega (arith, h.live q) }))

  pub handle_of-Answered :
      (k : Kind) (r : Reply ℕ) {own : List Resource} {w : World S}
      → Holds base own w
      → Ensures (Answered base (new_handle k) own) (handle_of k r w)
  unfolding handle_of acquire
  handle_of-Answered k (success p) h =
      ensures (succeeded (record { live = λ q. omega (arith, h.live q) }))
  handle_of-Answered k (failure st) h =
      ensures (failed (record { live = λ q. omega (arith, h.live q) }))

  pub block_of-Holds :
      (k : Kind) (p : Option ℕ) {own : List Resource} {w : World S}
      → Holds base own w
      → Ensures (λ r w'. (r ≡ p) × Holds base (opt_owned k r ++ own) w') (block_of k p w)
  unfolding block_of acquire
  block_of-Holds k none h = ensures (refl, h)
  block_of-Holds k (some p) h = ensures (refl, record { live = λ q. omega (arith, h.live q) })

  pub when_some-Holds :
      (k : Kind) (p : Option ℕ) (f : ℕ → M S (Unit {0})) (rest : List Resource)
      {own : List Resource} {w : World S}
      → Holds base own w
      → Same own (opt_owned k p ++ rest)
      → ((a : ℕ) (w' : World S)
          → Holds base (resource k a ∷ rest) w'
          → Ensures (λ _ w'. Holds base rest w') (f a w'))
      → Ensures (λ _ w'. Holds base rest w') (when_some p f w)
  unfolding when_some
  when_some-Holds k none f rest h s release_it = ensures (Holds-Same h s)
  when_some-Holds k (some a) f rest h s release_it = release_it a _ (Holds-Same h s)
