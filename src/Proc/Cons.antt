-- ===== src/Proc/Cons.antt =====
-- kernel/proc/proc.c: the output and input of a process under a terminal.
pub mod Output
pub mod Input
use zeros_i.Base.{
  ℕ, zero, suc, ◌+◌, ◌-◌, ◌*◌, ◌%◌, ◌^◌, Bool, true, false, ◌&&◌, ◌||◌, not, Option, none, some,
  List, [], ◌∷◌, ◌++◌, ltb, leb, ◌==◌, if◌then◌else◌, get_or, set, length, take, drop, min,
}
use zeros_i.Proc.{Proc, proc_at, proc_get, proc_max, is_zombie}

abbrev pub cons_out_max : ℕ
cons_out_max = 2048

abbrev pub cons_in_max : ℕ
cons_in_max = 128

-- `if (!p || p->cons_enable) ...`: what `proc_cons_repair` does to `p`, with the process on top of
-- the block stack, and its result.
pub proc_cons_repair : Option Proc → Proc → Bool × Proc
proc_cons_repair waiter p =
    let hosted : Bool = elim waiter [ none ↦ false | some w ↦ w.cons_host ] in
    if p.cons_enable
    then (true, p)
    else if p.cons_forbid
    then (false, p)
    else if hosted
    then (
      true,
      record p { cons_enable = true; cons_sink = if p.cons_sink == 0 then p.pid else p.cons_sink },
    )
    else (false, p)

-- The index of the process whose buffer takes the output of the process at `p`.
pub cons_sink_of : List Proc → ℕ → ℕ
cons_sink_of procs p =
    if (proc_at procs p).cons_sink == 0
    then p
    else elim (proc_get procs (proc_at procs p).cons_sink) [ none ↦ p | some i ↦ i ]

-- One character into a buffer; the status is false for -1.
pub put_out : ℕ → Proc → Bool × Proc
put_out c sink =
    if leb cons_out_max (length sink.cons_out + 1)
    then (false, sink)
    else (true, record sink { cons_out = sink.cons_out ++ (c ∷ []) })

pub proc_cons_putc : ℕ → ℕ → List Proc → Bool × List Proc
proc_cons_putc p c procs =
    let i = cons_sink_of procs p in
    let (done, sink) = put_out c (proc_at procs i) in
    if not (proc_at procs p).cons_enable then (false, procs) else (done, set procs i sink)

-- The loop of `proc_cons_write`, with `i` characters written.
pub cons_write_from : ℕ → List ℕ → ℕ → List Proc → ℕ × List Proc
cons_write_from p [] i procs = (i, procs)
cons_write_from p (c ∷ s) i procs =
    let (done, procs') = proc_cons_putc p c procs in
    let rest = cons_write_from p s (i + 1) procs' in if done then rest else (i, procs')

-- `none` is -1: no console, or nothing to write.
pub proc_cons_write : ℕ → List ℕ → List Proc → Option ℕ × List Proc
proc_cons_write p s procs =
    let (n, procs') = cons_write_from p s 0 procs in
    if not (proc_at procs p).cons_enable || (length s == 0) then (none, procs) else (some n, procs')

-- What `proc_cons_read` does to the process: the bytes read, and the rest slid to the front (a copy
-- downwards, `Memory.kmemcpy`).
pub take_out : ℕ → Proc → List ℕ × Proc
take_out n p =
    let got = min (length p.cons_out) n in
    (take got p.cons_out, record p { cons_out = drop got p.cons_out })

-- `none` is -1: no such process, or no room in the caller's buffer.
pub proc_cons_read : ℕ → ℕ → List Proc → Option (List ℕ) × List Proc
proc_cons_read pid n procs = elim (proc_get procs pid) [
  | none ↦ (none, procs)
  | some i ↦
      let (got, p) = take_out n (proc_at procs i) in
      if n == 0 then (none, procs) else (some got, set procs i p)
]

-- The inner loop of `cons_input_target`: the first child in use with a console, from index `i` on.
pub cons_child_from : List Proc → ℕ → ℕ → Option ℕ
cons_child_from [] pid i = none
cons_child_from (q ∷ procs) pid i =
    let rest = cons_child_from procs pid (i + 1) in
    if not q.used || not (q.ppid == pid)
    then rest
    else if not q.cons_enable || is_zombie q.state
    then rest
    else some i

-- The outer loop, with `depth` rounds left.
pub cons_descend : List Proc → ℕ → ℕ → ℕ
cons_descend procs zero t = t
cons_descend procs (suc depth) t = elim (cons_child_from procs (proc_at procs t).pid 0) [
  | none ↦ t
  | some child ↦ cons_descend procs depth child
]

pub cons_input_target : List Proc → ℕ → Option ℕ
cons_input_target procs p =
    let t = cons_descend procs proc_max p in if (proc_at procs t).cons_enable then some t else none

pub cons_in_compact : Proc → Proc
cons_in_compact t =
    if t.cons_in_pos == 0
    then t
    else record t { cons_in_keys = drop t.cons_in_pos t.cons_in_keys; cons_in_pos = 0 }

-- The loop of `proc_cons_write_in`, with `i` bytes queued.
pub queue_from : List ℕ → ℕ → Proc → ℕ × Proc
queue_from [] i t = (i, t)
queue_from (b ∷ buf) i t =
    let rest = queue_from buf (i + 1) (record t { cons_in_keys = t.cons_in_keys ++ (b ∷ []) }) in
    if leb cons_in_max (length t.cons_in_keys + 1) then (i, t) else rest

-- `proc_cons_putkey` at its target.
pub put_key : ℕ → Proc → Bool × Proc
put_key key t =
    let t' = cons_in_compact t in
    if leb cons_in_max (length t'.cons_in_keys + 1)
    then (false, t')
    else (true, record t' { cons_in_keys = t'.cons_in_keys ++ (key ∷ []) })

abbrev pub target_of : List Proc → ℕ → Option ℕ
target_of procs pid = elim (proc_get procs pid) [ none ↦ none | some i ↦ cons_input_target procs i ]

-- `none` is -1.
pub proc_cons_write_in : ℕ → List ℕ → List Proc → Option ℕ × List Proc
proc_cons_write_in pid buf procs = elim (target_of procs pid) [
  | none ↦ (none, procs)
  | some i ↦
      let (n, t) = queue_from buf 0 (cons_in_compact (proc_at procs i)) in
      if length buf == 0 then (none, procs) else (some n, set procs i t)
]

pub proc_cons_putkey : ℕ → ℕ → List Proc → Bool × List Proc
proc_cons_putkey pid key procs = elim (target_of procs pid) [
  | none ↦ (false, procs)
  | some i ↦ let (done, t) = put_key key (proc_at procs i) in (done, set procs i t)
]

-- `proc_cons_getc`; `none` is -1.
pub proc_cons_getc : Proc → Option ℕ × Proc
proc_cons_getc p =
    let pos = p.cons_in_pos + 1 in
    if not p.cons_enable || leb (length p.cons_in_keys) p.cons_in_pos then (none, p) else (
      some (get_or p.cons_in_keys p.cons_in_pos 0),
      if leb (length p.cons_in_keys) pos
          then record p { cons_in_keys = []; cons_in_pos = 0 }
          else record p { cons_in_pos = pos },
    )
