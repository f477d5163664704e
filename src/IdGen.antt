-- ===== src/IdGen.antt =====
-- utility/idgen/id.go: ids of 48 bits time, 16 bits node, 32 bits element and 32 bits sequence.
-- An int64 or int32 is its bit pattern. A call holds the lock from its first test to its return, so
-- it is a function of the generator, of the clock reading taken before the lock, and of the readings
-- that `tillNextMillisecond` may still take.
pub mod Ids
pub mod Till
pub mod Next
pub mod Order
pub mod Clock
pub mod Batch
mod Tests
use nekoq_component.Base.{
  ℕ, zero, suc, ◌+◌, ◌-◌, ◌*◌, ◌/◌, ◌%◌, ◌^◌, bit_and, bit_or, List, [], ◌∷◌, ◌++◌, Option, none,
  some, arith, ltb, ◌==◌, if◌then◌else◌, length, take, drop, replicate,
}
use nekoq_component.Base.Result.{Result, ok, err}
use nekoq_component.Base.Str.{Str}
use nekoq_component.Base.Words.{
  max_int32, max_int64, lt32, le32, lt64, add32, add64, sub64, int64_of_int32, int32_of_int64,
}
use nekoq_component.Base.Endian.{put_uint, get_uint}
use nekoq_component.Hex.{HexError, hex_encode, hex_decode}

pub record IdType : Type 0 where
  pub high : ℕ
  pub low : ℕ

abbrev pub zero_id : IdType
zero_id = record { high = 0; low = 0 }

-- 1, -1 and 0.
pub data Comparison : Type 0 where
  after before same : Comparison

pub compare_to : IdType → IdType → Comparison
unfolding lt64
compare_to i j =
    if lt64 j.high i.high
    then after
    else if lt64 i.high j.high
    then before
    else if lt64 j.low i.low
    then after
    else if lt64 i.low j.low
    then before
    else same

pub id_bytes : IdType → List ℕ
id_bytes i = put_uint 8 i.high ++ put_uint 8 i.low

pub hex_string : IdType → Str
hex_string i = hex_encode (id_bytes i)

pub data HexIdError : Type 0 where
  bad_hex : HexError → HexIdError
  wrong_length : HexIdError

abbrev id_of_bytes : List ℕ → Result HexIdError IdType
id_of_bytes b =
    if length b == 16
    then ok (record { high = get_uint (take 8 b); low = get_uint (take 8 (drop 8 b)) })
    else err wrong_length

pub from_hex_string : Str → Result HexIdError IdType
from_hex_string s = elim (hex_decode s) [ err e ↦ err (bad_hex e) | ok b ↦ id_of_bytes b ]

pub record IdGenOption : Type 0 where
  pub do_not_rewind_element_id_before : ℕ
  pub start_time_millis : ℕ

pub record IdGen : Type 0 where
  pub time : ℕ
  pub seq : ℕ
  pub node_id_mask : ℕ
  pub element_id_mask : ℕ
  pub opt : IdGenOption

abbrev pub default_start_time_millis : ℕ
default_start_time_millis = 1521639000000

-- `int64(nodeId)` of an int16, as a bit pattern.
abbrev int64_of_int16 : ℕ → ℕ
int64_of_int16 a = if ltb a (2 ^ 15) then a else a + (2 ^ 64 - 2 ^ 16)

pub new_id_gen : ℕ → ℕ → IdGenOption → IdGen
unfolding int64_of_int32
new_id_gen node_id element_id opt = record {
  time = 0;
  seq = 0;
  node_id_mask = bit_and (int64_of_int16 node_id) (2 ^ 16 - 1);
  element_id_mask = bit_and (int64_of_int32 element_id) (2 ^ 32 - 1) * 2 ^ 32 % 2 ^ 64;
  opt =
      if opt.start_time_millis == 0
      then record opt { start_time_millis = default_start_time_millis }
      else opt;
}

-- What `time.Now()` gives: `Unix()` as a bit pattern and `Nanosecond()`.
pub record Instant : Type 0 where
  pub unix : ℕ
  pub nanosecond : ℕ

pub get_time_millis : Instant → ℕ
unfolding add64
get_time_millis n =
    bit_and (add64 (n.unix * 1000 % 2 ^ 64) (n.nanosecond % 1000000000 / 1000000)) max_int64

pub make_id : ℕ → ℕ → ℕ → ℕ → ℕ → IdType
unfolding sub64 int64_of_int32
make_id time node_id_mask element_id seq start_time_millis = record {
  high = bit_or (sub64 time start_time_millis * 2 ^ 16 % 2 ^ 64) node_id_mask;
  low = bit_or element_id (bit_and (int64_of_int32 seq) (2 ^ 32 - 1));
}

pub data IdError : Type 0 where
  clock_backward : IdError

-- How a call ends. `waiting` is a call that is still in `tillNextMillisecond` after the readings it
-- was given, with the lock held; `panicked` is a run-time panic.
pub data Outcome {ℓ} (A : Type ℓ) : Type ℓ where
  returned : A → Outcome A
  failed : IdError → Outcome A
  waiting : Outcome A
  panicked : Outcome A

-- The first reading past `time`, among the `fuel` readings from number `i` on.
pub till_next_millisecond : ℕ → (ℕ → Instant) → ℕ → ℕ → Option ℕ
till_next_millisecond zero clock i time = none
till_next_millisecond (suc fuel) clock i time =
    let more = till_next_millisecond fuel clock (i + 1) time in
    let newtime = get_time_millis (clock i) in if lt64 time newtime then some newtime else more

-- What a call reads from the clock: the reading before the lock, and those of the waiting loop.
pub record Readings : Type 0 where
  pub now : Instant
  pub clock : ℕ → Instant
  pub count : ℕ

abbrev make_next_id : IdGen → ℕ → ℕ → IdType
make_next_id g time seq = make_id time g.node_id_mask g.element_id_mask seq g.opt.start_time_millis

-- The id is built after the unlock, from the mask and option fields, which no call changes.
abbrev rewind : IdGen → ℕ
rewind g = if lt32 g.opt.do_not_rewind_element_id_before g.seq then 0 else g.seq

abbrev advance : IdGen → ℕ → IdGen × Outcome IdType
advance g time = (record g { time = time; seq = rewind g }, returned (make_next_id g time 0))

abbrev advance_or_wait : IdGen → Option ℕ → IdGen × Outcome IdType
advance_or_wait g none = (g, waiting)
advance_or_wait g (some time) = advance g time

pub next : IdGen → Readings → IdGen × Outcome IdType
next g r =
    let now = get_time_millis r.now in
    if lt64 g.time now
    then advance g now
    else if now == g.time
    then (if lt32 g.seq max_int32
        then (let newseq = add32 g.seq 1 in
            (record g { seq = newseq }, returned (make_next_id g now newseq)))
        else advance_or_wait g (till_next_millisecond r.count r.clock 0 now))
    else (g, failed clock_backward)

-- `result` is in_transaction-IsWritten from its first element on; a write past its end panics.
pub make_id_range : ℕ → ℕ → ℕ → List IdType → ℕ → ℕ → ℕ → Option (List IdType)
make_id_range time node element [] start seq_end start_time =
    if le32 start seq_end then none else some []
make_id_range time node element (x ∷ xs) start seq_end start_time =
    let rest = make_id_range time node element xs (add32 start 1) seq_end start_time in
    if le32 start seq_end
    then elim rest [
      | none ↦ none
      | some ys ↦ some (make_id time node element start start_time ∷ ys)
    ]
    else some (x ∷ xs)

abbrev range_outcome : Option (List IdType) → Outcome (List IdType)
range_outcome none = panicked
range_outcome (some ids) = returned ids

abbrev make_batch : IdGen → ℕ → List IdType → ℕ → ℕ → Outcome (List IdType)
make_batch g time result seq_start seq_end = range_outcome (
    make_id_range time g.node_id_mask g.element_id_mask result seq_start seq_end
      g.opt.start_time_millis)

-- `int32(cnt-1)` of an int
abbrev count_less_one : ℕ → ℕ
count_less_one cnt = int32_of_int64 (sub64 cnt 1)

abbrev advance_n : IdGen → ℕ → ℕ → IdGen × Outcome (List IdType)
advance_n g cnt time = (
  record g { time = time; seq = add32 g.seq (count_less_one cnt) },
  make_batch g time (replicate cnt zero_id) 0 (count_less_one cnt),
)

abbrev advance_n_or_wait : IdGen → ℕ → Option ℕ → IdGen × Outcome (List IdType)
advance_n_or_wait g cnt none = (g, waiting)
advance_n_or_wait g cnt (some time) = advance_n g cnt time

-- `make` of a negative count panics before the lock is taken.
pub next_n : IdGen → ℕ → Readings → IdGen × Outcome (List IdType)
next_n g cnt r =
    let now = get_time_millis r.now in
    if lt64 cnt 0
    then (g, panicked)
    else if lt64 g.time now
    then advance_n g cnt now
    else if now == g.time
    then (let new_seq = add32 g.seq (count_less_one cnt) in
        if lt32 new_seq max_int32
        then (
          record g { seq = new_seq },
          make_batch g now (replicate cnt zero_id) g.seq (add32 new_seq (2 ^ 32 - 1)),
        )
        else advance_n_or_wait g cnt (till_next_millisecond r.count r.clock 0 now))
    else (g, failed clock_backward)
