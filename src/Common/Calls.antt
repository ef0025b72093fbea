-- ===== src/Common/Calls.antt =====
-- What a C++ call does: it returns, it throws, or its behaviour is undefined.
use mathlib.Core.Option.{Option, none, some}

-- `packet_error` is a CPacketException, `out_of_range` the exception of std::string.
pub data Thrown : Type 0 where
  packet_error out_of_range : Thrown

-- `fault` is undefined behaviour, such as a read past the end of a buffer. No handler catches it.
pub data Outcome {ℓ} (A : Type ℓ) : Type ℓ where
  ok : A → Outcome A
  throw : Thrown → Outcome A
  fault : Outcome A

-- `try { m } catch(...) { return a; }`
abbrev pub catch {ℓ} : {A : Type ℓ} → Outcome A → A → Outcome A
catch (ok a) b = ok a
catch (throw e) b = ok b
catch fault b = fault

-- A parse that reports its success: `true` and the parsed fields, or `false`.
abbrev pub attempt {ℓ} : {A : Type ℓ} → Outcome A → Outcome (Option A)
attempt (ok a) = ok (some a)
attempt (throw e) = ok none
attempt fault = fault

abbrev pub and_then {ℓ κ} : {A : Type ℓ} {B : Type κ} → Outcome A → (A → Outcome B) → Outcome B
and_then (ok a) f = f a
and_then (throw e) f = throw e
and_then fault f = fault
