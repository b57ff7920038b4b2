-- ===== src/Examples/Runtime.antt =====
-- Fingerprints, images and seeds at concrete values.
use mathlib.Core.List.{append_assoc}
use self_improving_trading_s.Prelude.{
  ℕ, ◌*◌, ◌^◌, ◌≡◌, refl, arith, ◌%◌, Bool, true, false, leb, if◌then◌else◌, none, some, List, [],
  ◌∷◌, ◌++◌, append_nothing, String, codes, length, lookup, has_part, after_text, same_codes, pos,
  sorted_by, insert_by,
}
use self_improving_trading_s.Errors.{ok}
use self_improving_trading_s.Fingerprint.{
  Hasher, container, ContainerIdentity, is_reproducible_context, container_identity,
  is_containerized, container_digest, is_digest, hex_to_end, is_hex, container_digest_env,
  EnvironmentFingerprint, compute_environment_fingerprint, file_sha256, read_loop, read_part,
  pinned_env_sha256, text_sha256, canonical_fields, field_text, or_empty, or_running, env_text,
}
use self_improving_trading_s.Fingerprint.Read.{UpdateLaws, file_sha256_lem}
use self_improving_trading_s.Fingerprint.Fields.{IsOneLine, value-identifies}
use self_improving_trading_s.Fingerprint.Identity.{IsImageDigest, container_identity_lem}
use self_improving_trading_s.Seeds.{sequence, stable_name_key, from_bytes, SeedEnvelope}
use self_improving_trading_s.Seeds.Streams.{IsDigest, sequence-injective}

-- A hash that only tells long contents from short ones.
abbrev hasher : Hasher
hasher = record {
  State = List ℕ;
  new = [];
  update = λ s part. s ++ part;
  hexdigest = λ s. if leb (length s) 3 then "a0" else "b1";
  encode = λ cs. cs;
}

hasher-UpdateLaws : UpdateLaws hasher
hasher-UpdateLaws = record {
  update_nothing = append_nothing;
  update_append = λ s a b. append_assoc s a b;
}

hexdigest_line : (s : List ℕ) → IsOneLine (hasher.hexdigest s)
hexdigest_line s = one_line (leb (length s) 3)
  where
    one_line : (b : Bool) → IsOneLine (if b then "a0" else "b1")
    one_line true = (λ e. cc (e), (λ e. cc (e), tt))
    one_line false = (λ e. cc (e), (λ e. cc (e), tt))

file_sha256_lem_example : file_sha256 hasher (1 ∷ 2 ∷ []) ≡ "a0"
file_sha256_lem_example = file_sha256_lem hasher hasher-UpdateLaws (1 ∷ 2 ∷ [])

abbrev fingerprint : EnvironmentFingerprint
fingerprint = record {
  python_version = "3.12.4";
  base_image_digest = none;
  lock_sha256 = "a0";
  pinned_env_sha256 = "b1";
  value = "b1";
}

given_run :
    compute_environment_fingerprint hasher (some (7 ∷ [])) none (some "3.12.4") "3.12.1"
    ≡ ok fingerprint
unfolding compute_environment_fingerprint file_sha256 read_loop read_part pinned_env_sha256
    text_sha256 canonical_fields field_text or_empty or_running env_text sorted_by insert_by
given_run = refl

running_run :
    compute_environment_fingerprint hasher (some (8 ∷ [])) none none "3.12.4" ≡ ok fingerprint
unfolding compute_environment_fingerprint file_sha256 read_loop read_part pinned_env_sha256
    text_sha256 canonical_fields field_text or_empty or_running env_text sorted_by insert_by
running_run = refl

version_line : IsOneLine "3.12.4"
version_line =
    (λ e. cc (e), (λ e. cc (e), (λ e. cc (e), (λ e. cc (e), (λ e. cc (e), (λ e. cc (e), tt))))))

base_line : IsOneLine (or_empty none)
unfolding or_empty
base_line = tt

value-identifies_example :
    (fingerprint.python_version ≡ fingerprint.python_version)
    × (or_empty fingerprint.base_image_digest ≡ or_empty fingerprint.base_image_digest)
    × (hasher.hexdigest (7 ∷ []) ≡ hasher.hexdigest (8 ∷ []))
value-identifies_example =
    value-identifies hasher (7 ∷ []) (8 ∷ []) none none (some "3.12.4") none "3.12.1" "3.12.4"
      hasher-UpdateLaws hexdigest_line given_run running_run (version_line, base_line)
      (version_line, base_line) (λ _. refl) refl

abbrev image : String
image = "sha256:0123456789abcdef0123456789abcdef0123456789abcdef0123456789abcdef"

abbrev image_env : List (String × String)
image_env = (container_digest_env, image) ∷ []

abbrev identity : ContainerIdentity
identity = record { provenance = container; image_digest = some image }

identity_run : container_identity image_env false (some "0::/docker/1") ≡ ok identity
unfolding container_identity is_containerized container_digest is_digest hex_to_end is_hex has_part
    after_text same_codes
identity_run = refl

in_docker : is_containerized false (some "0::/docker/1") ≡ true
unfolding is_containerized has_part after_text same_codes
in_docker = refl

container_identity_lem_example :
    (text : String) × (lookup container_digest_env image_env ≡ some text)
    × (identity.image_digest ≡ some text)
    × IsImageDigest text
    × (is_reproducible_context identity ≡ true)
container_identity_lem_example =
    container_identity_lem image_env false (some "0::/docker/1") in_docker identity_run

-- The length of a text and seven zeros.
abbrev digest : List ℕ → List ℕ
digest cs = length cs % 256 ∷ 0 ∷ 0 ∷ 0 ∷ 0 ∷ 0 ∷ 0 ∷ 0 ∷ []

digest-IsDigest : IsDigest digest
digest-IsDigest = record {
  in_number = λ cs. refl;
  are_bytes = λ cs. (
    omega arith,
    (
      omega arith,
      (omega arith, (omega arith, (omega arith, (omega arith, (omega arith, (omega arith, tt)))))),
    ),
  );
}

abbrev envelope : SeedEnvelope
envelope = record { experiment_seed = pos 7 }

queue_run :
    sequence digest envelope "queue" ≡ ok (record { entropy = pos 7; spawn_key = 5 * 256 ^ 7 })
unfolding sequence stable_name_key from_bytes
queue_run = refl

fills_run :
    sequence digest envelope "fills" ≡ ok (record { entropy = pos 7; spawn_key = 5 * 256 ^ 7 })
unfolding sequence stable_name_key from_bytes
fills_run = refl

sequence-injective_example :
    (envelope.experiment_seed ≡ envelope.experiment_seed)
    × (digest (codes "queue") ≡ digest (codes "fills"))
sequence-injective_example =
    sequence-injective digest envelope envelope "queue" "fills" digest-IsDigest queue_run fills_run
