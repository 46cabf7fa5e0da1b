-- ===== src/Codec/Scorer.antt =====
-- `CodecScorer` of crates/temnion-codec/src/lib.rs. `score` stands for the floating-point score of
-- a codec on some data, which the code computes from the compressed size and the measured times;
-- scores are compared alone, so that numbers in their order stand for them.
use temnion.Prelude.{
  ℕ, Bool, true, not, Option, none, some, List, [], ◌∷◌, Outcome, ok, err, panic, and_then, length,
  if◌then◌else◌, ltb,
}
use temnion.Codec.{
  CodecId, CodecError, raw, rle, bit_pack, delta_for, xor, invalid_data, corrupted, raw_missing,
  codec_eq, bytes_eq, encode, decode,
}
use temnion.Codec.Rle
use temnion.Codec.BitPack
use temnion.Codec.DeltaFor
use temnion.Codec.Xor

pub record CodecEvaluation : Type 0 where
  pub codec : CodecId
  pub original_bytes : ℕ
  pub compressed_bytes : ℕ
  pub score : ℕ
  pub verified_lossless : Bool

-- The trait object: a codec's identity with its two methods.
pub record Codec : Type 0 where
  pub id : CodecId
  pub encode : List ℕ → Outcome CodecError (List ℕ)
  pub decode : List ℕ → ℕ → Outcome CodecError (List ℕ)

module _ (hash : List ℕ → ℕ) (grants : ℕ → Bool) where
  -- The codecs in the order of the array.
  unfoldable pub codecs : List Codec
  codecs =
      record {
        id = raw;
        encode = temnion.Codec.encode hash grants;
        decode = temnion.Codec.decode hash grants;
      }
      ∷ record {
        id = rle;
        encode = temnion.Codec.Rle.encode hash grants;
        decode = temnion.Codec.Rle.decode hash grants;
      }
      ∷ record {
        id = bit_pack;
        encode = temnion.Codec.BitPack.encode hash grants;
        decode = temnion.Codec.BitPack.decode hash grants;
      }
      ∷ record {
        id = delta_for;
        encode = temnion.Codec.DeltaFor.encode hash grants;
        decode = temnion.Codec.DeltaFor.decode hash grants;
      }
      ∷ record {
        id = xor;
        encode = temnion.Codec.Xor.encode hash grants;
        decode = temnion.Codec.Xor.decode hash grants;
      }
      ∷ []

-- `if let Ok(eval)` skips the codecs that fail; a codec that panics takes the caller with it.
unfoldable pub keep :
    Outcome CodecError CodecEvaluation
    → Outcome CodecError (List CodecEvaluation)
    → Outcome CodecError (List CodecEvaluation)
keep (ok eval) rest = and_then rest (λ evaluations. ok (eval ∷ evaluations))
keep (err e) rest = rest
keep panic rest = panic

module _ (score : CodecId → List ℕ → ℕ) where
  unfoldable pub evaluation : Codec → List ℕ → List ℕ → List ℕ → Outcome CodecError CodecEvaluation
  evaluation codec input compressed decoded =
      if not (bytes_eq decoded input)
      then err (invalid_data corrupted)
      else ok (record {
        codec = codec.id;
        original_bytes = length input;
        compressed_bytes = length compressed;
        score = score codec.id input;
        verified_lossless = true;
      })

  unfoldable pub evaluate_candidate : Codec → List ℕ → Outcome CodecError CodecEvaluation
  evaluate_candidate codec input = and_then (codec.encode input) (λ compressed.
      and_then (codec.decode compressed (length input)) (evaluation codec input compressed))

  unfoldable pub evaluate_all : List Codec → List ℕ → Outcome CodecError (List CodecEvaluation)
  evaluate_all [] input = ok []
  evaluate_all (codec ∷ codecs) input =
      keep (evaluate_candidate codec input) (evaluate_all codecs input)

-- The first evaluation of the raw codec.
unfoldable pub find_raw : List CodecEvaluation → Option CodecEvaluation
find_raw [] = none
find_raw (e ∷ evaluations) = if codec_eq e.codec raw then some e else find_raw evaluations

unfoldable pub smaller_than : CodecEvaluation → List CodecEvaluation → List CodecEvaluation
smaller_than raw_eval [] = []
smaller_than raw_eval (e ∷ evaluations) =
    let rest = smaller_than raw_eval evaluations in
    if ltb e.compressed_bytes raw_eval.compressed_bytes then e ∷ rest else rest

-- `min_by`: the first of the least scores, of the evaluations behind `best`.
unfoldable pub least_score : CodecEvaluation → List CodecEvaluation → CodecEvaluation
least_score best [] = best
least_score best (e ∷ evaluations) =
    least_score (if ltb e.score best.score then e else best) evaluations

-- `min_by(..).unwrap_or(raw_eval)`
unfoldable pub winner_of : CodecEvaluation → List CodecEvaluation → CodecEvaluation
winner_of raw_eval [] = raw_eval
winner_of raw_eval (e ∷ evaluations) = least_score e evaluations

unfoldable pub ok_or_missing : Option CodecEvaluation → Outcome CodecError CodecEvaluation
ok_or_missing none = err (invalid_data raw_missing)
ok_or_missing (some raw_eval) = ok raw_eval

unfoldable pub winner : List CodecEvaluation → Outcome CodecError CodecEvaluation
winner evaluations =
    and_then (ok_or_missing (find_raw evaluations))
      (λ raw_eval. ok (winner_of raw_eval (smaller_than raw_eval evaluations)))

unfoldable pub select_best :
    (List ℕ → ℕ) → (ℕ → Bool) → (CodecId → List ℕ → ℕ) → List ℕ → Outcome CodecError CodecEvaluation
select_best hash grants score input =
    and_then (evaluate_all score (codecs hash grants) input) winner
