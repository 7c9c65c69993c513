-- ===== src/Procfs/Generated.antt =====
-- What `ProcessGenerator` and `fixed` make.
use lading.Prelude.{
  ℕ, zero, suc, ◌-◌, ◌^◌, ◌≤◌, ◌<◌, ◌≡◌, refl, sym, subst, ◌∙◌, ap, List, [], ◌∷◌, some, done, All,
  arith, Text, length, take, drop, slice, min, length-take, leb, le→leb, if-true,
}
use lading.Payload.Strings.{alphanum}
use lading.Payload.Pool.{
  IsOf, window, offset, after, of_size-some, offset-lt, length-window, with_size-IsOf,
}
use lading.Observer.Stat.{parse}
use lading.Procfs.Numbers.{ℤ, pos, negsuc, Fits, Standard, pid_max_limit}
use lading.Procfs.Stat
use lading.Procfs.Stat.{Stat, display, StatGenerator}
use lading.Procfs.Status.{Status}
use lading.Procfs.StatusGenerator
use lading.Procfs.StatusGenerator.{StatusGenerator}
use lading.Procfs.Proc.{sample_io, sample_statm}
use lading.Procfs.Process.{Process, ProcessGenerator, from_cmdline, generate, generate_all, fixed}
use lading.Procfs.Digits.{as_i32}
use lading.Procfs.Fields.{parse-display}
use lading.Procfs.Plausible.{Within, IsStatOf, IsStatusOf, generate-IsStatOf, generate-IsStatusOf}

-- A process as `ProcessGenerator` makes it.
abbrev pub IsConsistent : Process → Type 0
IsConsistent p =
    (1 ≤ length p.cmdline)
    × (length p.cmdline ≤ 254)
    × All (IsOf alphanum) p.cmdline
    × (p.comm ≡ take 16 p.cmdline)
    × Within 1 pid_max_limit p.pid
    × IsStatOf p.pid p.comm p.stat
    × IsStatusOf p.pid (take 64 p.cmdline) p.status
    × (parse (display p.stat) ≡ done (some (as_i32 p.pid, p.stat.utime, p.stat.stime)))

min-suc : (n m : ℕ) → min (suc n) (suc m) ≡ suc (min n m)
min-suc n m = omega arith

take-min : (n : ℕ) (xs : Text) → take (min n (length xs)) xs ≡ take n xs
take-min zero xs = let e : min 0 (length xs) ≡ 0 = omega arith in ap (λ (n : ℕ). take n xs) e
take-min (suc n) [] = let e : min (suc n) 0 ≡ 0 = omega arith in ap (λ (m : ℕ). take {A = ℕ} m []) e
take-min (suc n) (x ∷ xs) =
    ap (λ (m : ℕ). take m (x ∷ xs)) (min-suc n (length xs))
    ∙ ap (λ (l : Text). x ∷ l) (take-min n xs)

-- A leading slice of at most so many bytes.
slice-take : (n : ℕ) (xs : Text) → slice xs 0 (min n (length xs)) ≡ done (take n xs)
slice-take n xs =
    let m : ℕ = min n (length xs) in
    let e : m - 0 ≡ m = omega arith in
    rw (le→leb 0 m (omega arith), le→leb m (length xs) (omega arith))
      (ap (λ (k : ℕ). done (take k xs)) e ∙ ap done (take-min n xs))

All-take : (P : ℕ → Type 0) (n : ℕ) (xs : Text) → All P xs → All P (take n xs)
All-take P zero xs h = tt
All-take P (suc n) [] h = tt
All-take P (suc n) (x ∷ xs) h = (h.0, All-take P n xs h.1)

All-drop : (P : ℕ → Type 0) (n : ℕ) (xs : Text) → All P xs → All P (drop n xs)
All-drop P zero xs h = h
All-drop P (suc n) [] h = tt
All-drop P (suc n) (x ∷ xs) h = All-drop P n xs h.1

Within-Fits : (pid : ℤ) → Within 1 pid_max_limit pid → Fits (2 ^ 31) pid
Within-Fits (pos n) h = omega (arith, h.1)
Within-Fits (negsuc n) h = absurd h

-- The observer reads the process ID that a `Stat` was drawn for.
parse-IsStatOf :
    (pid : ℤ) (comm : Text) (stat : Stat)
    → Within 1 pid_max_limit pid
    → IsStatOf pid comm stat
    → parse (display stat) ≡ done (some (as_i32 pid, stat.utime, stat.stime))
parse-IsStatOf pid comm stat h k =
    parse-display stat (subst (Fits (2 ^ 31)) (sym k.0) (Within-Fits pid h), k.11, k.12)
    ∙ ap (λ (z : ℤ). done (some (as_i32 z, stat.utime, stat.stime))) k.0

module _ (r : Standard) where
  open r use {rng}
  open rng use {State}

  stat-new :
      (pid : ℤ) (t : Text)
      → Stat.new pid (take 16 t) ≡ done (record { pid = pid; comm = take 16 t })
  unfolding Stat.new
  stat-new pid t =
      if-true (leb (length (take 16 t)) 16) _ _
        (le→leb (length (take 16 t)) 16 (omega (arith, length-take 16 t)))

  status-new :
      (pid : ℤ) (t : Text)
      → StatusGenerator.new pid (take 64 t) ≡ done (record { pid = pid; name = take 64 t })
  unfolding StatusGenerator.new
  status-new pid t =
      if-true (leb (length (take 64 t)) 64) _ _
        (le→leb (length (take 64 t)) 64 (omega (arith, length-take 64 t)))

  -- From a command line a consistent process is made.
  from_cmdline-IsConsistent :
      (cmdline : Text) (s : State)
      → 1 ≤ length cmdline
      → length cmdline ≤ 254
      → All (IsOf alphanum) cmdline
      → (p : Process) × (s' : State) × (from_cmdline r (some cmdline) s ≡ done (some p, s'))
        × IsConsistent p
  unfolding from_cmdline
  from_cmdline-IsConsistent cmdline s h k l =
      let drawn : ℕ × State = r.range_32 1 pid_max_limit (sample_statm r (sample_io r s).1).1 in
      let pid : ℤ = pos drawn.0 in
      let stat_gen : StatGenerator = record { pid = pid; comm = take 16 cmdline } in
      let stat : Stat × State = Stat.generate r stat_gen drawn.1 in
      let status_gen : StatusGenerator = record { pid = pid; name = take 64 cmdline } in
      let status : Status × State = StatusGenerator.generate r status_gen stat.1 in
      let p : Process = record {
        cmdline = cmdline;
        comm = take 16 cmdline;
        io = (sample_io r s).0;
        stat = stat.0;
        statm = (sample_statm r (sample_io r s).1).0;
        status = status.0;
        pid = pid;
      } in
      let within : Within 1 pid_max_limit pid = r.in_range_32 1 pid_max_limit _ (omega arith) in
      let drawn_stat = generate-IsStatOf r stat_gen drawn.1 in
      (
        p,
        status.1,
        rw
            (
              slice-take 16 cmdline,
              slice-take 64 cmdline,
              stat-new pid cmdline,
              status-new pid cmdline,
            )
            refl,
        (
          h,
          k,
          l,
          refl,
          within,
          drawn_stat,
          generate-IsStatusOf r status_gen stat.1,
          parse-IsStatOf pid (take 16 cmdline) stat.0 within drawn_stat,
        ),
      )

  -- For a pool of more than 254 letters and digits, `ProcessGenerator::generate` neither panics nor
  -- fails, and makes a consistent process.
  generate-IsConsistent :
      (self : ProcessGenerator) (s : State)
      → 254 < length self.str_pool.inner
      → All (IsOf alphanum) self.str_pool.inner
      → (p : Process) × (s' : State) × (generate r self s ≡ done (some p, s')) × IsConsistent p
  unfolding generate
  generate-IsConsistent self s h k =
      let size : ℕ × State = rng.draw_range 1 255 s in
      let range = rng.in_range 1 255 s (omega arith) in
      let pool = self.str_pool in
      let lt : size.0 < length pool.inner = omega (arith, h, range.1) in
      let start = offset rng pool size.0 size.1 in
      let cmdline : Text = window pool start size.0 in
      let len : length cmdline ≡ size.0 =
        length-window pool start size.0 (offset-lt rng pool size.0 size.1 lt) in
      let (p, s', e, c) =
        from_cmdline-IsConsistent cmdline (after rng pool size.0 size.1)
          (omega (arith, len, range.0)) (omega (arith, len, range.1))
          (All-take (IsOf alphanum) size.0 (drop start pool.inner)
            (All-drop (IsOf alphanum) start pool.inner k)) in
      (p, s', rw (of_size-some rng pool size.0 size.1 lt) e, c)

  generate_all-IsConsistent :
      (gen : ProcessGenerator) (total : ℕ) (s : State)
      → 254 < length gen.str_pool.inner
      → All (IsOf alphanum) gen.str_pool.inner
      → (ps : List Process) × (s' : State) × (generate_all r gen total s ≡ done (some ps, s'))
        × (length ps ≡ total)
        × All IsConsistent ps
  unfolding generate_all
  generate_all-IsConsistent gen zero s h k = ([], s, refl, refl, tt)
  generate_all-IsConsistent gen (suc total) s h k =
      let (p, s', e, c) = generate-IsConsistent gen s h k in
      let (ps, s'', e', l, cs) = generate_all-IsConsistent gen total s' h k in
      (p ∷ ps, s'', rw (e) (rw (e') refl), omega (arith, l), (c, cs))

  -- `fixed` neither panics nor fails, and makes just as many processes as are asked for. Each has a
  -- command line of one to 254 letters and digits; the first 16 of them are the command and the first
  -- 64 the name in its status file; its stat and its status file are for its process ID and drawn
  -- under their assumptions; and of the written stat file the observer's `parse` reads the process ID
  -- and the two times that are in it.
  pub fixed-IsConsistent :
      (total : ℕ) (s : State)
      → (ps : List Process) × (s' : State) × (fixed r total s ≡ done (some ps, s'))
        × (length ps ≡ total)
        × All IsConsistent ps
  unfolding fixed
  fixed-IsConsistent total s =
      let (pool, s', e, l, h) = with_size-IsOf rng 1000000 s in
      let gen : ProcessGenerator = record { str_pool = pool } in
      let (ps, s'', e', n, c) = generate_all-IsConsistent gen total s' (omega (arith, l)) h in
      (ps, s'', rw e e', n, c)
