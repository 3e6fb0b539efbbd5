-- ===== src/Go/Runtime/Refs.antt =====
-- Opening and closing a runtime, and the references that keep its library open.
use onnxcraft.Common.{
  ℕ, zero, suc, ℤ, pos, negsuc, Bool, true, false, ◌||◌, String, Option, none, some, if◌then◌else◌,
  ◌==◌,
}
use onnxcraft.Native.Machine.{M, pure, ◌>>=◌, ◌>>◌, deref}
use onnxcraft.Bridge.Types.{OcRuntime, OcSession}
use onnxcraft.Bridge.Open.{OpenResult, Text}
use onnxcraft.Bridge.Interface.{Bridge}
use onnxcraft.Go.Result.{Result, good, bad}
use onnxcraft.Go.Cgo.{Cgo, absolute, c_string, c_free, contains_nul, is_empty}
use onnxcraft.Go.Runtime.Types.{GoError, Runtime, SessionOptions, Session}
use onnxcraft.Go.Runtime.Load.{load_session}

-- `refs--` and `refs++`
abbrev pub pred : ℤ → ℤ
pred (pos zero) = negsuc 0
pred (pos (suc n)) = pos n
pred (negsuc n) = negsuc (suc n)

abbrev pub succ : ℤ → ℤ
succ (pos n) = pos (suc n)
succ (negsuc zero) = pos 0
succ (negsuc (suc n)) = negsuc n

abbrev pub is_zero : ℤ → Bool
is_zero (pos zero) = true
is_zero (pos (suc n)) = false
is_zero (negsuc n) = false

-- The runtime that `Open` returns.
abbrev pub first_reference : OcRuntime → String → Runtime
first_reference ptr version = record {
  native = some ptr;
  refs = pos 1;
  is_closed = false;
  version = version;
}

-- A path must be nonempty and contain no NUL.
unfoldable pub is_bad_path : String → Bool
is_bad_path path = is_empty path || contains_nul path

module _ {S : Type 0} (c : Bridge S) where
  unfoldable pub release_reference : Runtime → M S Runtime
  release_reference r =
      if is_zero (pred r.refs)
      then (do c.oc_close r.native; pure (record r { refs = pred r.refs; native = none }))
      else pure (record r { refs = pred r.refs })

  unfoldable pub close_open : Option OcRuntime → Runtime → M S Runtime
  unfolding release_reference
  close_open none r = pure r
  close_open (some p) r = release_reference r

  -- `Close` of a runtime.
  unfoldable pub close_runtime : Runtime → M S Runtime
  unfolding close_open
  close_runtime r =
      if r.is_closed then pure r else close_open r.native (record r { is_closed = true })

  -- `Close` of a session, and what it leaves of its runtime.
  unfoldable pub close_native : Option OcSession → Session → Runtime → M S (Session × Runtime)
  unfolding release_reference
  close_native none s r = pure (s, r)
  close_native (some ptr) s r = do
    c.oc_session_free (some ptr)
    r' ← release_reference r
    pure (record s { native = none }, r')

  unfoldable pub close_session : Session → Runtime → M S (Session × Runtime)
  unfolding close_native
  close_session s r = close_native s.native s r

module _ {S : Type 0} (cgo : Cgo S) (c : Bridge S) where
  -- What `load` returns, and what it makes of the runtime.
  abbrev pub counted : Runtime → Result GoError Session → Result GoError Session × Runtime
  counted r (good s) = (good s, record r { refs = succ r.refs })
  counted r (bad e) = (bad e, r)

  unfoldable pub load_on :
      Option OcRuntime
      → Runtime
      → (path : String) (model length : ℕ) → SessionOptions
      → M S (Result GoError Session × Runtime)
  unfolding load_session
  load_on none r path model length o = pure (bad GoError.closed, r)
  load_on (some p) r path model length o = do
    result ← load_session cgo c p o path model length
    pure (counted r result)

  unfoldable pub load :
      Runtime
      → (path : String) (model length : ℕ) → SessionOptions
      → M S (Result GoError Session × Runtime)
  unfolding load_on
  load r path model length o =
      if r.is_closed then pure (bad GoError.closed, r) else load_on r.native r path model length o

  -- `*message` as an error's text, after which it is freed.
  unfoldable pub take_message : (String → GoError) → Option Text → M S (Result GoError Runtime)
  unfolding c_free
  take_message f none = pure (bad (f ""))
  take_message f (some t) = do c_free cgo t.block; pure (bad (f t.text))

  -- What `Open` makes of the code of `oc_open`.
  unfoldable pub opened_with : OpenResult → M S (Result GoError Runtime)
  unfolding take_message deref
  opened_with result = elim result.code [
    | pos zero ↦ (do
      ptr ← deref result.out
      version ← deref ptr.version
      pure (good (first_reference ptr version)))
    | pos (suc n) ↦ take_message (GoError.native (suc n)) result.error
    | negsuc n ↦ take_message GoError.open_failed result.error
  ]

  unfoldable pub open_absolute : Result String String → M S (Result GoError Runtime)
  unfolding c_string c_free opened_with
  open_absolute (bad message) = pure (bad (GoError.no_working_directory message))
  open_absolute (good path) = do
    cpath ← c_string cgo path
    result ← c.oc_open path
    runtime ← opened_with result
    c_free cgo cpath
    pure runtime

  -- `Open`
  unfoldable pub open_runtime : (path : String) → M S (Result GoError Runtime)
  unfolding is_bad_path absolute open_absolute
  open_runtime path =
      if is_bad_path path
      then pure (bad GoError.invalid_path)
      else (absolute cgo path >>= open_absolute)

  -- `Load` and `LoadBytes`, of a model at an address.
  unfoldable pub load_path :
      Runtime → String → SessionOptions → M S (Result GoError Session × Runtime)
  unfolding is_bad_path load
  load_path r path o =
      if is_bad_path path then pure (bad GoError.invalid_path, r) else load r path 0 0 o

  unfoldable pub load_bytes :
      Runtime → (model length : ℕ) → SessionOptions → M S (Result GoError Session × Runtime)
  unfolding load
  load_bytes r model length o =
      if length == 0 then pure (bad GoError.empty_model, r) else load r "" model length o
