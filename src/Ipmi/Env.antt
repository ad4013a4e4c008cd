-- ===== src/Ipmi/Env.antt =====
-- What the IPMI handlers share and what they call: the platform's cryptography and randomness, the
-- machine behind the Go interface MachineInterface (internal/ipmi/types.go), and the state.
use Prim.Native.String.{String}
use qemu_bmc.Base.{ℕ, ◌+◌, ◌%◌, ◌≡◌, Bytes, Option, some, length, Result}
use qemu_bmc.Bmc.State.{State}
use qemu_bmc.Machine.Types.{PowerState, BootOverride, MachineError}

-- Functions of Go's standard library that are not given here. `random i n` is the i-th call of
-- rand.Read, for n bytes; `none` is its error.
pub record Platform : Type 0 where
  pub hmac_sha1 : Bytes → Bytes → Bytes
  pub md5 : Bytes → Bytes
  pub aes_cbc_encrypt : Bytes → Bytes → Bytes → Bytes
  pub aes_cbc_decrypt : Bytes → Bytes → Bytes → Bytes
  pub random : ℕ → ℕ → Option Bytes

-- The documented behaviour that the code relies on: the sizes of the results, and that CBC
-- decryption undoes encryption under the same key and vector on whole blocks.
pub record PlatformLaws (p : Platform) : Type 0 where
  pub length-hmac_sha1 : (key msg : Bytes) → length (p.hmac_sha1 key msg) ≡ 20
  pub length-random : (i n : ℕ) (bs : Bytes) → p.random i n ≡ some bs → length bs ≡ n
  pub length-aes_cbc_encrypt :
      (key iv bs : Bytes) → length bs % 16 ≡ 0 → length (p.aes_cbc_encrypt key iv bs) ≡ length bs
  pub decrypt-encrypt :
      (key iv bs : Bytes)
      → length bs % 16 ≡ 0
      → p.aes_cbc_decrypt key iv (p.aes_cbc_encrypt key iv bs) ≡ bs

-- The methods that the package calls on the machine, over its state `M`; an error is `some`.
pub record MachineInterface (M : Type 0) : Type 0 where
  pub get_power_state : M → M × Result MachineError PowerState
  pub reset : String → M → M × Option MachineError
  pub get_boot_override : M → BootOverride
  pub set_boot_override : BootOverride → M → M × Option MachineError

-- The package variables of handler_app.go.
pub record V15State : Type 0 where
  pub temp_session_id : ℕ
  pub challenge : Bytes
  pub active_session_id : ℕ

-- What a command may read and change. `draws` counts the calls of rand.Read.
pub record Ctx (M : Type 0) : Type 0 where
  pub machine : M
  pub bmc : State
  pub v15 : V15State
  pub draws : ℕ

-- A handler's pair of a completion code and data.
pub record Reply : Type 0 where
  pub code : ℕ
  pub payload : Bytes

abbrev pub reply : ℕ → Bytes → Reply
reply code payload = record { code = code; payload = payload }

-- One call of rand.Read.
module _ {M : Type 0} (p : Platform) where
  unfoldable pub rand_read : ℕ → Ctx M → Ctx M × Option Bytes
  rand_read n c = (record c { draws = c.draws + 1 }, p.random c.draws n)
