-- ===== src/Tests/Cards.antt =====
-- The assembly of an avatar at concrete chunks.
use vibed_st_muliplayer.Base.{ℕ, ◌≡◌, refl, some, List, [], ◌∷◌, arith}
use vibed_st_muliplayer.Relay.State.{Bytes}
use vibed_st_muliplayer.Cards.{
  Chunk, Pushed, Fault, chunk_of, piece, chunk_count, push_all, push, push_counted, push_bytes,
  open_transfer, add_part, settle, find_transfer, alive, put_transfer, drop_transfer, holes,
  has_part, set_part, joined_parts,
}
use vibed_st_muliplayer.Cards.Assembly.{AllWhole, avatar_is_whole}
use vibed_st_muliplayer.Cards.Arrival.{arriving, avatar_arrives}

abbrev portrait : Bytes
portrait = 137 ∷ 80 ∷ 78 ∷ 71 ∷ []

-- A chunk of another card, one with a count that is too large, the chunk of ours, and it once more.
abbrev broken_chunk : Chunk
broken_chunk = record { card = "bob:2"; seq = some 0; total = some 5000; bytes = some [] }

abbrev mixed : List (Chunk × ℕ)
mixed =
    (chunk_of "bob:2" (1 ∷ 2 ∷ []) 0, 10)
    ∷ (broken_chunk, 11)
    ∷ (chunk_of "alice:1" portrait 0, 12)
    ∷ (chunk_of "alice:1" portrait 0, 13)
    ∷ []

mixed_results :
    (push_all mixed []).1
    ≡ Pushed.complete (1 ∷ 2 ∷ [])
      ∷ Pushed.fails Fault.invalid_count
      ∷ Pushed.complete portrait
      ∷ Pushed.complete portrait
      ∷ []
unfolding push_all push push_counted push_bytes open_transfer add_part settle find_transfer alive
    put_transfer drop_transfer holes has_part set_part joined_parts piece chunk_count
mixed_results = refl

avatar_is_whole_example : AllWhole "alice:1" portrait mixed (push_all mixed []).1
unfolding piece chunk_count
avatar_is_whole_example = avatar_is_whole "alice:1" portrait mixed (
  (λ own. grind arith),
  (
    (λ own. grind arith),
    ((λ own. (refl, (0, refl, refl))), ((λ own. (refl, (0, refl, refl))), tt)),
  ),
)

avatar_arrives_example :
    (push_all (arriving "alice:1" portrait ((0, 50) ∷ [])) []).1 ≡ Pushed.complete portrait ∷ []
unfolding chunk_count find_transfer
avatar_arrives_example =
    avatar_arrives "alice:1" portrait ((0, 50) ∷ []) 40 [] (omega arith) refl (omega arith)
      (refl, tt) (omega arith, tt) refl (omega arith, tt)
