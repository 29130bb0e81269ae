-- ===== src/Tokenizer/Bpe/Short.antt =====
-- `merge_short` of src/core/tokenizer/bpe/merge.cpp. The arrays on the stack are functions of the index,
-- of which the first `count` places are in use. The source has 64 places, and calls it for no more symbols.
pub mod Arrays
pub mod Rounds
pub mod Result
use browser_llm.Base.{
  ℕ, zero, suc, ◌+◌, ◌-◌, ◌≤◌, ◌<◌, ◌≡◌, Bool, true, false, ◌&&◌, Option, none, some, List, [], ◌∷◌,
  ◌++◌, ltb, leb, ◌==◌, if◌then◌else◌, length, get_or,
}
use browser_llm.Tokenizer.Bpe.Table.{Merge}
use browser_llm.Tokenizer.Bpe.Merge.{Rules, no_rule}

abbrev pub Array : Type 0
Array = ℕ → ℕ

-- `a[i] = v`
abbrev pub put : Array → ℕ → ℕ → Array
put a i v j = if j == i then v else a j

-- `std::copy(a + first + 1, a + stop, a + first)`
abbrev pub close_gap : ℕ → ℕ → Array → Array
close_gap first stop a j = if leb first j && ltb (suc j) stop then a (suc j) else a j

-- The first `n` places.
abbrev pub view : ℕ → Array → List ℕ
view zero a = []
view (suc n) a = a 0 ∷ view n (λ j. a (suc j))

pub record Piece : Type 0 where
  pub count : ℕ
  pub parts : Array
  pub ranks : Array
  pub results : Array

-- The index of the lowest rank, the leftmost on a tie: `left` more places to look at, from `i` on.
unfoldable pub best_of : Array → ℕ → ℕ → ℕ → ℕ
best_of ranks zero i best = best
best_of ranks (suc left) i best =
    best_of ranks left (suc i) (if ltb (ranks i) (ranks best) then i else best)

abbrev pub looked : Option Merge → ℕ → Piece → Piece
looked none i p = record p { ranks = put p.ranks i no_rule }
looked (some m) i p = record p { ranks = put p.ranks i m.rank; results = put p.results i m.result }

-- The pair at `best` becomes one symbol and the places after it move down.
unfoldable pub close : ℕ → Piece → Piece
close best p =
    let inner : Bool = ltb (best + 2) (p.count - 1) in
    record {
      count = p.count - 1;
      parts = close_gap (best + 1) p.count (put p.parts best (p.results best));
      ranks = if inner then close_gap (best + 1) (p.count - 1) p.ranks else p.ranks;
      results = if inner then close_gap (best + 1) (p.count - 1) p.results else p.results;
    }

abbrev pub appended : List ℕ → Option Piece → Option (List ℕ)
appended out none = none
appended out (some p) = some (out ++ view p.count p.parts)

module _ (rules : Rules) where
  unfoldable pub look_up : ℕ → Piece → Piece
  look_up i p = looked (rules (p.parts i) (p.parts (suc i))) i p

  -- `for (i = 0; i + 1 < count; ++i) look_up(i)`, with the rounds left.
  unfoldable pub look_all : ℕ → ℕ → Piece → Piece
  look_all zero i p = p
  look_all (suc left) i p = look_all left (suc i) (look_up i p)

  abbrev pub look_left : ℕ → Piece → Piece
  look_left best p = if ltb 0 best then look_up (best - 1) p else p

  abbrev pub look_right : ℕ → Piece → Piece
  look_right best p = if ltb (best + 1) p.count then look_up best p else p

  abbrev pub merge_best : ℕ → Piece → Piece
  merge_best best p = look_right best (look_left best (close best p))

  -- `while (count > 1)`, on fuel.
  unfoldable pub rounds : ℕ → Piece → Option Piece
  rounds zero p = none
  rounds (suc fuel) p =
      let best : ℕ = best_of p.ranks (p.count - 2) 1 0 in
      let more : Option Piece = rounds fuel (merge_best best p) in
      if ltb 1 p.count then (if p.ranks best == no_rule then some p else more) else some p

  abbrev pub piece_of : List ℕ → Piece
  piece_of symbols = look_all (length symbols - 1) 0 (record {
    count = length symbols;
    parts = λ i. get_or symbols i 0;
    ranks = λ i. 0;
    results = λ i. 0;
  })

  -- As many rounds as symbols are enough: each shortens the piece.
  unfoldable pub merge_short : List ℕ → List ℕ → Option (List ℕ)
  merge_short symbols out = appended out (rounds (suc (length symbols)) (piece_of symbols))
