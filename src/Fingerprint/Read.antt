-- ===== src/Fingerprint/Read.antt =====
-- The loop that reads a file in parts comes to an end with the hash of the whole file.
use self_improving_trading_s.Prelude.{
  ℕ, zero, suc, ◌-◌, ◌^◌, ◌≤◌, ◌≡◌, refl, sym, ap, ◌∙◌, arith, List, [], ◌∷◌, ◌++◌, length,
}
use self_improving_trading_s.Fingerprint.{Hasher, read_part, read_loop, file_sha256}

-- Repeated calls of `update` are one call with the parts joined.
pub record UpdateLaws (hasher : Hasher) : Type 0 where
  pub update_nothing : (s : hasher.State) → hasher.update s [] ≡ s
  pub update_append :
      (s : hasher.State) (a b : List ℕ)
      → hasher.update (hasher.update s a) b ≡ hasher.update s (a ++ b)

read_part-append :
    (size : ℕ) (content : List ℕ)
    → (read_part size content).0 ++ (read_part size content).1 ≡ content
unfolding read_part
read_part-append zero content = refl
read_part-append (suc size) [] = refl
read_part-append (suc size) (b ∷ content) = ap (λ cs. b ∷ cs) (read_part-append size content)

read_part-length :
    (size : ℕ) (content : List ℕ) → length (read_part size content).1 ≤ length content
unfolding read_part
read_part-length zero content = omega arith
read_part-length (suc size) [] = omega arith
read_part-length (suc size) (b ∷ content) = omega (arith, read_part-length size content)

module _ (hasher : Hasher) (laws : UpdateLaws hasher) where
  open hasher use {State, new, update, hexdigest}

  read_loop-update :
      (size fuel : ℕ) (s : State) (content : List ℕ)
      → suc (length content) ≤ fuel
      → read_loop hasher (suc size) fuel s content ≡ update s content
  unfolding read_loop read_part
  read_loop-update size zero s content h = absurd (omega (arith, h))
  read_loop-update size (suc fuel) s [] h = sym (laws.update_nothing s)
  read_loop-update size (suc fuel) s (b ∷ content) h =
      read_loop-update size fuel (update s (b ∷ (read_part size content).0))
        (read_part size content).1 (omega (arith, h, read_part-length size content))
      ∙ (laws.update_append s (b ∷ (read_part size content).0) (read_part size content).1
          ∙ ap (λ cs. update s (b ∷ cs)) (read_part-append size content))

  -- Reading a file in chunks comes to its end, and gives the hash of the whole content, of whatever length.
  pub file_sha256_lem :
      (content : List ℕ) → file_sha256 hasher content ≡ hexdigest (update new content)
  unfolding file_sha256
  file_sha256_lem content =
      ap hexdigest (read_loop-update (2 ^ 20 - 1) (suc (length content)) new content (omega arith))
