-- ===== src/Fingerprint.antt =====
-- packages/runtime/src/trading/runtime/fingerprint.py: which image runs, and from what environment. What is
-- read of the host is an argument: the files, the variables and the version of the interpreter.
pub mod Identity
pub mod Read
pub mod Fields
use self_improving_trading_s.Prelude.{
  ℕ, zero, suc, ◌^◌, ◌∷◌, ◌==◌, leb, ◌&&◌, ◌||◌, Bool, true, false, if◌then◌else◌, Option, none,
  some, List, [], ◌++◌, String, codes, str_eq, lookup, length, has_part, after_text, sorted_by,
  text_ord,
}
use self_improving_trading_s.Errors.{Result, ok, err, file_missing, provenance_error}
use self_improving_trading_s.Determinism.{pinned_env}

-- The name of the variable that holds the digest of the image.
abbrev pub container_digest_env : String
container_digest_env = "TRADING_CONTAINER_DIGEST"

pub data Provenance : Type 0 where
  container host : Provenance

pub record ContainerIdentity : Type 0 where
  pub provenance : Provenance
  pub image_digest : Option String

unfoldable pub is_reproducible_context : ContainerIdentity → Bool
is_reproducible_context i = elim i.provenance [
  | host ↦ false
  | container ↦ elim i.image_digest [ none ↦ false | some digest ↦ true ]
]

-- `[0-9a-f]`
unfoldable pub is_hex : ℕ → Bool
is_hex c = (leb b'0' c && leb c b'9') || (leb b'a' c && leb c b'f')

-- `[0-9a-f]{width}$`; the end is also before a line feed that is the last character.
unfoldable pub hex_to_end : ℕ → List ℕ → Bool
unfolding is_hex
hex_to_end zero [] = true
hex_to_end zero (c ∷ []) = c == 10
hex_to_end zero (c ∷ d ∷ cs) = false
hex_to_end (suc width) [] = false
hex_to_end (suc width) (c ∷ cs) = is_hex c && hex_to_end width cs

-- `_DIGEST_RE.match`
unfoldable pub is_digest : List ℕ → Bool
unfolding hex_to_end
is_digest cs = elim (after_text (codes "sha256:") cs) [
  | none ↦ false
  | some rest ↦ hex_to_end 64 rest
]

-- `_is_containerized`, of whether /.dockerenv exists and what /proc/self/cgroup holds, if it is read
unfoldable pub is_containerized : Bool → Option String → Bool
is_containerized dockerenv cgroup = dockerenv || elim cgroup [
  | none ↦ false
  | some text ↦
      has_part (codes "docker") (codes text)
      || (has_part (codes "containerd") (codes text) || has_part (codes "kubepods") (codes text))
]

-- `raw if raw else None`
unfoldable pub some_text : Option String → Option String
some_text none = none
some_text (some s) = if str_eq s "" then none else some s

-- What a container reports.
unfoldable pub container_digest : Option String → Result ContainerIdentity
unfolding is_digest
container_digest none = err provenance_error
container_digest (some raw) =
    if is_digest (codes raw)
    then ok (record { provenance = container; image_digest = some raw })
    else err provenance_error

unfoldable pub container_identity :
    List (String × String) → Bool → Option String → Result ContainerIdentity
unfolding is_containerized container_digest some_text
container_identity env dockerenv cgroup =
    let raw = lookup container_digest_env env in
    if is_containerized dockerenv cgroup
    then container_digest raw
    else ok (record { provenance = host; image_digest = some_text raw })

-- SHA-256 of `hashlib`, fed in parts, and the encoding of a text, by its code points, as UTF-8.
pub record Hasher : Type 1 where
  pub State : Type 0
  pub new : State
  pub update : State → List ℕ → State
  pub hexdigest : State → String
  pub encode : List ℕ → List ℕ

-- `handle.read(size)` and what is left of the file
unfoldable pub read_part : ℕ → List ℕ → List ℕ × List ℕ
read_part zero content = ([], content)
read_part (suc size) [] = ([], [])
read_part (suc size) (b ∷ content) = let part = read_part size content in (b ∷ part.0, part.1)

pub record EnvironmentFingerprint : Type 0 where
  pub python_version : String
  pub base_image_digest : Option String
  pub lock_sha256 : String
  pub pinned_env_sha256 : String
  pub value : String

-- `f"{k}={v}\n"`
unfoldable pub field_text : String → String → List ℕ
field_text k v = codes k ++ (b'=' ∷ (codes v ++ (10 ∷ [])))

-- `base_image_digest or ""`
unfoldable pub or_empty : Option String → String
or_empty none = ""
or_empty (some s) = s

-- `_canonical_form`, as code points; the keys are in order.
unfoldable pub canonical_fields : String → Option String → String → String → List ℕ
unfolding field_text or_empty
canonical_fields python_version base_image_digest lock_sha256 pinned_env_sha256 =
    field_text "base_image_digest" (or_empty base_image_digest)
    ++ (field_text "lock_sha256" lock_sha256
        ++ (field_text "pinned_env_sha256" pinned_env_sha256
            ++ field_text "python_version" python_version))

-- `EnvironmentFingerprint.canonical_form`
unfoldable pub fingerprint_form : EnvironmentFingerprint → List ℕ
fingerprint_form f =
    canonical_fields f.python_version f.base_image_digest f.lock_sha256 f.pinned_env_sha256

-- The lines of variables, joined.
unfoldable pub env_text : List (String × String) → List ℕ
env_text [] = []
env_text ((k, v) ∷ env) = field_text k v ++ env_text env

-- `python_version or platform.python_version()`
unfoldable pub or_running : Option String → String → String
or_running none running = running
or_running (some s) running = if str_eq s "" then running else s

-- `1 << 20`
abbrev pub chunk_size : ℕ
chunk_size = 2 ^ 20

module _ (hasher : Hasher) where
  open hasher use {State, new, update, hexdigest, encode}

  -- `hashlib.sha256(text.encode("utf-8")).hexdigest()`
  unfoldable pub text_sha256 : List ℕ → String
  text_sha256 text = hexdigest (update new (encode text))

  unfoldable pub pinned_env_sha256 : String
  pinned_env_sha256 =
      text_sha256 (env_text (sorted_by text_ord (λ (pin : String × String). pin.0) pinned_env))

  -- `while chunk := handle.read(size)`, on fuel
  unfoldable pub read_loop : ℕ → ℕ → State → List ℕ → State
  unfolding read_part
  read_loop size zero digest content = digest
  read_loop size (suc fuel) digest content =
      let chunk = read_part size content in
      let later = read_loop size fuel (update digest chunk.0) chunk.1 in
      elim chunk.0 [ [] ↦ digest | b ∷ bs ↦ later ]

  -- One read for each byte and one more are enough.
  unfoldable pub file_sha256 : List ℕ → String
  unfolding read_loop
  file_sha256 content = hexdigest (read_loop chunk_size (suc (length content)) new content)

  -- Of the lock file, if there is one.
  unfoldable pub compute_environment_fingerprint :
      Option (List ℕ) → Option String → Option String → String → Result EnvironmentFingerprint
  unfolding file_sha256 pinned_env_sha256 or_running
  compute_environment_fingerprint none base_image_digest python_version running = err file_missing
  compute_environment_fingerprint (some lock) base_image_digest python_version running =
      let resolved_python = or_running python_version running in
      let lock_hash = file_sha256 lock in
      let env_hash = pinned_env_sha256 in
      ok (record {
        python_version = resolved_python;
        base_image_digest = base_image_digest;
        lock_sha256 = lock_hash;
        pinned_env_sha256 = env_hash;
        value = text_sha256 (canonical_fields resolved_python base_image_digest lock_hash env_hash);
      })
