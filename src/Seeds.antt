-- ===== src/Seeds.antt =====
-- packages/runtime/src/trading/runtime/seeds.py: named random streams from one seed. BLAKE2b, the encoding
-- of a text and the generators of numpy are parameters.
pub mod Streams
use self_improving_trading_s.Prelude.{
  ℕ, ◌+◌, ◌*◌, List, [], ◌∷◌, String, ℤ, pos, codes, str_eq, ltb_ℤ, if◌then◌else◌,
}
use self_improving_trading_s.Errors.{Result, ok, err, value_error, ◌>>=◌}

-- `int.from_bytes(digest, "big")`, from a value on
unfoldable pub from_bytes : ℕ → List ℕ → ℕ
from_bytes value [] = value
from_bytes value (b ∷ bs) = from_bytes (value * 256 + b) bs

-- `SeedSequence(entropy=..., spawn_key=(key,))`
pub record SeedSequence : Type 0 where
  pub entropy : ℤ
  pub spawn_key : ℕ

pub record SeedEnvelope : Type 0 where
  pub experiment_seed : ℤ

-- The constructor with its check.
unfoldable pub seed_envelope : ℤ → Result SeedEnvelope
seed_envelope experiment_seed =
    if ltb_ℤ experiment_seed (pos 0)
    then err value_error
    else ok (record { experiment_seed = experiment_seed })

-- `hashlib.blake2b(name.encode("utf-8"), digest_size=8).digest()`, of the code points of the name
module _ (digest : List ℕ → List ℕ) where
  unfoldable pub stable_name_key : String → Result ℕ
  stable_name_key name =
      if str_eq name "" then err value_error else ok (from_bytes 0 (digest (codes name)))

  unfoldable pub sequence : SeedEnvelope → String → Result SeedSequence
  unfolding stable_name_key
  sequence envelope name = do
    key ← stable_name_key name
    ok (record { entropy = envelope.experiment_seed; spawn_key = key })

  -- `Generator(PCG64(self.sequence(name)))`
  unfoldable pub stream :
      {Generator : Type 0} → (SeedSequence → Generator) → SeedEnvelope → String → Result Generator
  unfolding sequence
  stream generator envelope name = do seeds ← sequence envelope name; ok (generator seeds)
