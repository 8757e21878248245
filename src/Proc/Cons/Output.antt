-- ===== src/Proc/Cons/Output.antt =====
-- The output of a process: what is written is read, in order, and no buffer overflows.
use zeros_i.Base.{
  ℕ, zero, suc, ◌+◌, ◌-◌, ◌≤◌, ◌<◌, ◌≡◌, ◌≢◌, refl, sym, ◌==◌, some, ap, ◌∙◌, true, false, List, [],
  ◌∷◌, ◌++◌, leb, get_or-set, set-get_or, set, length, length-set, length-append, take, length-take,
  min, take-nil, take-append-drop, arith, Bool-cases, inl, inr,
}
use mathlib.Core.List.{append-nil, append_assoc}
use zeros_i.Proc.{Proc, proc_at, cleared, get_from, proc_get}
use zeros_i.Proc.Cons.{
  cons_out_max, cons_sink_of, put_out, proc_cons_putc, cons_write_from, take_out,
}

-- The room of a buffer: one cell stays for the NUL.
abbrev pub out_room : Proc → ℕ
out_room p = cons_out_max - 1 - length p.cons_out

abbrev pub Fits : Proc → Type 0
Fits p = length p.cons_out < cons_out_max

-- The process `p` writes to the buffer of the process `i`, whose pid it has as its sink: the two are
-- the same where a process has a console of its own, and a child shares the console of its host.
pub record IsSink (procs : List Proc) (p i : ℕ) : Type 0 where
  pub within : i < length procs
  pub enabled : (proc_at procs p).cons_enable ≡ true
  pub some_sink : (proc_at procs p).cons_sink ≢ 0
  pub found : proc_get procs (proc_at procs p).cons_sink ≡ some i
  pub fits : Fits (proc_at procs i)

putc_full :
    (procs : List Proc) (p i c : ℕ)
    → IsSink procs p i
    → cons_out_max ≤ length (proc_at procs i).cons_out + 1
    → proc_cons_putc p c procs ≡ (false, procs)
unfolding proc_cons_putc cons_sink_of put_out
putc_full procs p i c h full =
    let sink : (proc_at procs p).cons_sink == 0 ≡ false = ground (arith, h.some_sink) in
    let over : leb cons_out_max (length (proc_at procs i).cons_out + 1) ≡ true = ground arith in
    rw (h.enabled, sink, h.found, over) (ap (λ ps. (false, ps)) (set-get_or procs i cleared))

abbrev added : List Proc → ℕ → ℕ → Proc
added procs i c = record (proc_at procs i) { cons_out = (proc_at procs i).cons_out ++ (c ∷ []) }

abbrev appended : List Proc → ℕ → ℕ → List Proc
appended procs i c = set procs i (added procs i c)

putc_room :
    (procs : List Proc) (p i c : ℕ)
    → IsSink procs p i
    → length (proc_at procs i).cons_out + 1 < cons_out_max
    → proc_cons_putc p c procs ≡ (true, appended procs i c)
unfolding proc_cons_putc cons_sink_of put_out
putc_room procs p i c h room =
    let sink : (proc_at procs p).cons_sink == 0 ≡ false = ground (arith, h.some_sink) in
    let under : leb cons_out_max (length (proc_at procs i).cons_out + 1) ≡ false = ground arith in
    rw (h.enabled, sink, h.found, under) refl

proc_at-appended :
    (procs : List Proc) (i c : ℕ)
    → i < length procs
    → proc_at (appended procs i c) i ≡ added procs i c
proc_at-appended procs i c lt = ground (arith, get_or-set procs i i (added procs i c) cleared lt)

appended_others :
    (procs : List Proc) (i c j : ℕ)
    → i < length procs
    → i ≢ j
    → proc_at (appended procs i c) j ≡ proc_at procs j
appended_others procs i c j lt ne =
    ground (arith, get_or-set procs i j (added procs i c) cleared lt)

-- Where a process writes to, after a character more.
appended_sink :
    (procs : List Proc) (i c p : ℕ)
    → i < length procs
    → ((proc_at (appended procs i c) p).cons_enable ≡ (proc_at procs p).cons_enable)
      × ((proc_at (appended procs i c) p).cons_sink ≡ (proc_at procs p).cons_sink)
appended_sink procs i c p lt = elim (Bool-cases (i == p)) [
  | inl same ↦
      let e : i ≡ p = ground arith in rw (← e) (rw (proc_at-appended procs i c lt) (refl, refl))
  | inr other ↦ rw (appended_others procs i c p lt (ground arith)) (refl, refl)
]

get_from-set :
    (procs : List Proc) (pid k i : ℕ) (q : Proc)
    → q.used ≡ (proc_at procs i).used
    → q.pid ≡ (proc_at procs i).pid
    → get_from (set procs i q) pid k ≡ get_from procs pid k
unfolding get_from
get_from-set [] pid k i q u e = refl
get_from-set (r ∷ procs) pid k zero q u e = rw (u, e) refl
get_from-set (r ∷ procs) pid k (suc i) q u e = rw (get_from-set procs pid (k + 1) i q u e) refl

appended-IsSink :
    (procs : List Proc) (p i c : ℕ)
    → IsSink procs p i
    → length (proc_at procs i).cons_out + 1 < cons_out_max
    → IsSink (appended procs i c) p i
unfolding proc_get
appended-IsSink procs p i c h room =
    let e = proc_at-appended procs i c h.within in
    let (enable, sink) = appended_sink procs i c p h.within in
    record {
      within = omega (arith, h.within, length-set procs i (added procs i c));
      enabled = enable ∙ h.enabled;
      some_sink = λ z. h.some_sink (sym sink ∙ z);
      found = rw sink (
          get_from-set procs (proc_at procs p).cons_sink 0 i (added procs i c) refl refl ∙ h.found);
      fits = rw e (omega (arith, length-append (proc_at procs i).cons_out (c ∷ [])));
    }

-- When a process with a console writes, and its sink is the pid of a process in the table, itself or
-- another, whose buffer is within its bounds, the write takes as many characters as that buffer has
-- room for, appends exactly those to it, in order, and touches no other process.
pub cons_write_from_lem :
    (s : List ℕ) (p i n : ℕ) (procs : List Proc)
    → IsSink procs p i
    → let (m, procs') = cons_write_from p s n procs in
      IsSink procs' p i
      × (m ≡ n + min (length s) (out_room (proc_at procs i)))
      × ((proc_at procs' i).cons_out
          ≡ (proc_at procs i).cons_out ++ take (out_room (proc_at procs i)) s)
      × ((j : ℕ) → i ≢ j → proc_at procs' j ≡ proc_at procs j)
unfolding cons_write_from
cons_write_from_lem [] p i n procs h = (h, omega arith, rw (take-nil, append-nil), λ j ne. refl)
cons_write_from_lem (c ∷ s) p i n procs h =
    elim (Bool-cases (leb cons_out_max (length (proc_at procs i).cons_out + 1))) [
      | inl full ↦
          let none_left : out_room (proc_at procs i) ≡ zero = ground arith in
          rw (putc_full procs p i c h (ground arith), none_left)
            (h, omega arith, rw append-nil, λ j ne. refl)
      | inr fits ↦
          let room : length (proc_at procs i).cons_out + 1 < cons_out_max = ground arith in
          let (h', count, chars, others) =
            cons_write_from_lem s p i (n + 1) (appended procs i c)
              (appended-IsSink procs p i c h room) in
          let e = proc_at-appended procs i c h.within in
          let len = length-append (proc_at procs i).cons_out (c ∷ []) in
          let one_less : out_room (proc_at procs i)
              ≡ suc (out_room (proc_at (appended procs i c) i)) =
            rw e (omega (arith, len)) in
          rw (putc_room procs p i c h room) (
            h',
            omega (arith, count, one_less),
            chars
                ∙ ap (λ out. out ++ take (out_room (proc_at (appended procs i c) i)) s)
                    (ap (λ (q : Proc). q.cons_out) e)
                ∙ rw one_less (
                    append_assoc (proc_at procs i).cons_out (c ∷ [])
                      (take (out_room (proc_at (appended procs i c) i)) s)),
            λ j ne. others j ne ∙ appended_others procs i c j h.within ne,
          )
    ]

-- Reading takes the oldest characters, and leaves the others: nothing is lost or reordered.
take_out_lem :
    (n : ℕ) (p : Proc)
    → let (got, p') = take_out n p in
      (got ++ p'.cons_out ≡ p.cons_out) × (length got ≡ min (length p.cons_out) n)
unfolding take_out
take_out_lem n p = (
  take-append-drop (min (length p.cons_out) n) p.cons_out,
  omega (arith, length-take (min (length p.cons_out) n) p.cons_out),
)
