-- ===== src/Tokenizer/Bpe/Long.antt =====
-- `merge_long` and `merge` of src/core/tokenizer/bpe/merge.cpp. The vector of symbols is a function of
-- the position. The priority queue is a list that a least element is taken from; which one, of those
-- that compare equal, is the implementation's choice.
pub mod Queue
pub mod Chain
pub mod Unlink
pub mod Pairs
pub mod Steps
pub mod Rounds
pub mod Collect
pub mod Start
pub mod Result
use browser_llm.Base.{
  ℕ, zero, suc, ◌+◌, ◌-◌, ◌*◌, ◌%◌, ◌^◌, Bool, true, false, not, ◌&&◌, Option, none, some, List, [],
  ◌∷◌, ◌++◌, ltb, leb, ◌==◌, if◌then◌else◌, length, get_or,
}
use browser_llm.Base.Words.{u32_max}
use browser_llm.Tokenizer.Bpe.Table.{Merge}
use browser_llm.Tokenizer.Bpe.Merge.{Rules}
use browser_llm.Tokenizer.Bpe.Short.{merge_short}

-- No position.
abbrev pub no_place : ℕ
no_place = u32_max

abbrev pub short_piece : ℕ
short_piece = 64

pub record Symbol : Type 0 where
  pub token : ℕ
  pub prev : ℕ
  pub next : ℕ

pub record Candidate : Type 0 where
  pub rank : ℕ
  pub left : ℕ
  pub right : ℕ
  pub left_token : ℕ
  pub right_token : ℕ
  pub result : ℕ

-- `operator>`
abbrev pub is_above : Candidate → Candidate → Bool
is_above a b = if a.rank == b.rank then ltb b.left a.left else ltb b.rank a.rank

abbrev pub kept : Candidate → Candidate × List Candidate → Candidate × List Candidate
kept c r = (r.0, c ∷ r.1)

-- `top` and `pop` of the queue that has `c` and more.
unfoldable pub take_least : Candidate → List Candidate → Candidate × List Candidate
take_least c [] = (c, [])
take_least c (d ∷ more) =
    kept (if is_above c d then c else d) (take_least (if is_above c d then d else c) more)

abbrev pub Symbols : Type 0
Symbols = ℕ → Symbol

-- `piece[i] = s`
abbrev pub put_symbol : Symbols → ℕ → Symbol → Symbols
put_symbol piece i s j = if j == i then s else piece j

module _ (rules : Rules) where
  abbrev pub queued : Option Merge → Symbols → ℕ → ℕ → List Candidate → List Candidate
  queued none piece left right queue = queue
  queued (some m) piece left right queue =
      record {
        rank = m.rank;
        left = left;
        right = right;
        left_token = (piece left).token;
        right_token = (piece right).token;
        result = m.result;
      }
      ∷ queue

  unfoldable pub consider : Symbols → ℕ → List Candidate → List Candidate
  consider piece left queue =
      let right : ℕ = (piece left).next in
      if right == no_place
      then queue
      else queued (rules (piece left).token (piece right).token) piece left right queue

-- The pair still stands as it did when it was queued.
abbrev pub still_stands : Symbols → Candidate → Bool
still_stands piece c =
    ((piece c.left).next == c.right)
    && (((piece c.left).token == c.left_token) && ((piece c.right).token == c.right_token))

abbrev pub take_over : Symbols → ℕ → ℕ → Symbols
take_over piece left next =
    if next == no_place then piece else put_symbol piece next (record (piece next) { prev = left })

-- The left symbol becomes the merged token and takes over the right one's place in the chain.
unfoldable pub unlink : Symbols → ℕ → ℕ → ℕ → Symbols
unlink piece left right result =
    let p1 : Symbols = put_symbol piece left (record (piece left) { token = result }) in
    let p2 : Symbols = put_symbol p1 left (record (p1 left) { next = (p1 right).next }) in
    let p3 : Symbols = take_over p2 left (p2 right).next in
    put_symbol p3 right (record (p3 right) { prev = no_place; next = no_place })

pub record Long : Type 0 where
  pub piece : Symbols
  pub queue : List Candidate

-- `for (i = 0; i != kNone; i = piece[i].next)`, on fuel.
unfoldable pub collect : ℕ → Symbols → ℕ → List ℕ → Option (List ℕ)
collect zero piece i out = none
collect (suc fuel) piece i out =
    let rest : Option (List ℕ) =
      collect fuel piece (piece i).next (out ++ ((piece i).token ∷ [])) in
    if i == no_place then some out else rest

-- The vector after the first loop.
abbrev pub chained : List ℕ → ℕ → Symbols
chained symbols count i = record {
  token = get_or symbols i 0;
  prev = if i == 0 then no_place else i - 1;
  next = if i + 1 == count then no_place else i + 1;
}

abbrev pub collected : List ℕ → ℕ → Option Symbols → Option (List ℕ)
collected out count none = none
collected out count (some piece) = collect (count + 1) piece 0 out

module _ (rules : Rules) where
  abbrev pub consider_left : Symbols → ℕ → List Candidate → List Candidate
  consider_left piece prev queue =
      if prev == no_place then queue else consider rules piece prev queue

  -- One candidate taken from the queue.
  abbrev pub long_step : Symbols → Candidate × List Candidate → Long
  long_step piece taken =
      let c : Candidate = taken.0 in
      if still_stands piece c
      then (let merged : Symbols = unlink piece c.left c.right c.result in
          record {
            piece = merged;
            queue =
                consider rules merged c.left (consider_left merged (merged c.left).prev taken.1);
          })
      else record { piece = piece; queue = taken.1 }

  -- `while (!queue.empty())`, on fuel.
  unfoldable pub long_rounds : ℕ → Long → Option Symbols
  long_rounds zero s = none
  long_rounds (suc fuel) s = elim s.queue [
    | [] ↦ some s.piece
    | c ∷ more ↦ long_rounds fuel (long_step s.piece (take_least c more))
  ]

  -- `for (i = 0; i + 1 < count; ++i) consider(piece, i, merges, queue)`
  unfoldable pub consider_all : Symbols → ℕ → ℕ → List Candidate → List Candidate
  consider_all piece zero i queue = queue
  consider_all piece (suc left) i queue =
      consider_all piece left (suc i) (consider rules piece i queue)

  -- Each round takes one candidate, and each merge adds two at most.
  unfoldable pub merge_long : List ℕ → List ℕ → Option (List ℕ)
  merge_long symbols out =
      let count : ℕ = length symbols % 2 ^ 32 in
      let piece : Symbols = chained symbols count in
      collected out count (
        long_rounds (3 * count + 1)
          (record { piece = piece; queue = consider_all piece (count - 1) 0 [] }))

  unfoldable pub merge : List ℕ → List ℕ → Option (List ℕ)
  unfolding merge_long
  merge symbols out =
      if length symbols == 0
      then some out
      else if leb (length symbols) short_piece
      then merge_short rules symbols out
      else merge_long symbols out
