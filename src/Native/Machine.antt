-- ===== src/Native/Machine.antt =====
-- C code as functions on a world: the ledger of live resources, and the state of the libraries
-- that the code calls. A run faults where C has undefined behaviour: a handle that is used or
-- released while it is not live (use after free, double free), a null pointer that is read
-- through, an index outside an array.
use onnxcraft.Common.{ℕ, List, ◌∷◌, Option, none, some, leb, if◌then◌else◌}
use onnxcraft.Native.Ledger.{Kind, Resource, resource, count, erase}

pub record World (S : Type 0) : Type 0 where
  pub heap : List Resource
  pub libs : S

pub data Run (S A : Type 0) : Type 0 where
  done : A → World S → Run S A
  fault : Run S A

abbrev pub M : Type 0 → Type 0 → Type 0
M S A = World S → Run S A

-- What a call that returns an `OrtStatus *` answers: no status and the out parameter, or a status.
pub data Reply (A : Type 0) : Type 0 where
  success : A → Reply A
  failure : ℕ → Reply A

module _ {S : Type 0} where
  abbrev pub pure : {A : Type 0} → A → M S A
  pure a w = done a w

  abbrev pub and_then : {A B : Type 0} → Run S A → (A → M S B) → Run S B
  and_then (done a w) k = k a w
  and_then fault k = fault

  infixl 5 ◌>>=◌ ◌>>◌
  abbrev pub ◌>>=◌ : {A B : Type 0} → M S A → (A → M S B) → M S B
  ◌>>=◌ m k w = and_then (m w) k

  abbrev pub ◌>>◌ : {A B : Type 0} → M S A → M S B → M S B
  m >> n = m >>= λ _. n

  -- What the C code does where the language leaves the behaviour undefined.
  abbrev pub undefined : {A : Type 0} → M S A
  undefined w = fault

  -- Reading through a pointer that may be null, or at an index that may be out of range.
  unfoldable pub deref : {A : Type 0} → Option A → M S A
  deref none = undefined
  deref (some a) = pure a

  -- A resource becomes live.
  unfoldable pub acquire : Kind → ℕ → M S (Unit {0})
  acquire k p w = done tt (record w { heap = resource k p ∷ w.heap })

  -- A resource is given back: once, and only while it is live.
  unfoldable pub release : Kind → ℕ → M S (Unit {0})
  release k p w =
      if leb 1 (count (resource k p) w.heap)
      then done tt (record w { heap = erase (resource k p) w.heap })
      else fault

  -- An argument must be live at the call.
  unfoldable pub uses : Kind → ℕ → M S (Unit {0})
  uses k p w = if leb 1 (count (resource k p) w.heap) then done tt w else fault

  -- A step of a library: it answers and changes its own state.
  unfoldable pub call : {A : Type 0} → (S → A × S) → M S A
  call f w = let (a, s) = f w.libs in done a (record w { libs = s })

  -- A status that comes back is owned by the caller.
  unfoldable pub status_of : {A : Type 0} → Reply A → M S (Reply A)
  unfolding acquire
  status_of (success a) = pure (success a)
  status_of (failure st) = acquire Kind.status_handle st >> pure (failure st)

  -- A handle that comes back is owned by the caller too.
  unfoldable pub handle_of : Kind → Reply ℕ → M S (Reply ℕ)
  unfolding acquire
  handle_of k (success p) = acquire k p >> pure (success p)
  handle_of k (failure st) = acquire Kind.status_handle st >> pure (failure st)

  -- A call that may allocate: NULL, or a block that the caller owns.
  unfoldable pub block_of : Kind → Option ℕ → M S (Option ℕ)
  unfolding acquire
  block_of k none = pure none
  block_of k (some p) = acquire k p >> pure (some p)

  -- `if (p) f(p);`
  unfoldable pub when_some : {A : Type 0} → Option A → (A → M S (Unit {0})) → M S (Unit {0})
  when_some none f = pure tt
  when_some (some a) f = f a
