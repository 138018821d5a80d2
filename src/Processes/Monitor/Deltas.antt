-- ===== src/Processes/Monitor/Deltas.antt =====
-- What lib/LinuxProcessMonitorLight.cpp reports between two updates.
use wall_mon.Base.{
  ℕ, ◌+◌, ◌-◌, ◌%◌, ◌^◌, ◌≤◌, ◌<◌, ◌≡◌, refl, ap, ◌∙◌, arith, Bool, true, false, some, List, [],
  ◌∷◌, ◌++◌, ltb, if◌then◌else◌,
}
use wall_mon.Processes.Monitor.{
  Monitor, Reading, Read, read_error, scanned, StatFields, IoFields, update, step, shift, read_stat,
  read_statm, read_io, get_total_io_in_bytes, get_total_io_out_bytes, get_storage_in_bytes,
  get_storage_out_bytes, get_network_in_bytes, get_network_out_bytes, sub_long, get_process_name,
  drop_last, drop_first,
}

sub_long-wrapped :
    (a b : ℕ) → a ≤ b → b < a + 2 ^ 64 → (b % 2 ^ 64 + 2 ^ 64 - a % 2 ^ 64) % 2 ^ 64 ≡ b - a
sub_long-wrapped a b h k = omega arith

scanned_inj : (k n : ℕ) (g f : IoFields) → scanned k g ≡ scanned n f → g ≡ f
scanned_inj k n g f e = cc

-- What `scanf` reads of the counters `c` of the kernel, which may be beyond 64 bits.
abbrev pub wrapped : IoFields → IoFields
wrapped c = record {
  rchar = c.rchar % 2 ^ 64;
  wchar = c.wchar % 2 ^ 64;
  syscr = c.syscr % 2 ^ 64;
  syscw = c.syscw % 2 ^ 64;
  read_bytes = c.read_bytes % 2 ^ 64;
  write_bytes = c.write_bytes % 2 ^ 64;
}

-- Counters never fall, and rise by less than 2^64 from one update to the next.
abbrev pub Rises : IoFields → IoFields → Type 0
Rises c c' =
    (c.rchar ≤ c'.rchar)
    × (c'.rchar < c.rchar + 2 ^ 64)
    × (c.wchar ≤ c'.wchar)
    × (c'.wchar < c.wchar + 2 ^ 64)
    × (c.read_bytes ≤ c'.read_bytes)
    × (c'.read_bytes < c.read_bytes + 2 ^ 64)
    × (c.write_bytes ≤ c'.write_bytes)
    × (c'.write_bytes < c.write_bytes + 2 ^ 64)

delta :
    (x y a b : ℕ) → x ≡ b % 2 ^ 64 → y ≡ a % 2 ^ 64 → a ≤ b → b < a + 2 ^ 64 → sub_long x y ≡ b - a
delta x y a b ex ey h k = rw (ex, ey) (sub_long-wrapped a b h k)

network :
    (io storage u v : ℕ)
    → io ≡ u
    → storage ≡ v
    → u < 2 ^ 64
    → v < 2 ^ 64
    → (if ltb io storage then 0 else sub_long io storage) ≡ u - v
network io storage u v e e' h h' = ground arith

-- `t` is a later state of the update that began with `m`, with the same files open.
abbrev Later : {N : Type 0} → Monitor N → Monitor N → Type 0
Later m t = (t.prev ≡ m.now) × (t.has_io ≡ m.has_io)

module _ {N : Type 0} where
  read_stat-Later : (r : Read StatFields) (m t : Monitor N) → Later m t → Later m (read_stat r t).1
  unfolding read_stat
  read_stat-Later (read_error n) m t l = l
  read_stat-Later (scanned n f) m t l = l

  read_statm-Later : (r : Read ℕ) (m t : Monitor N) → Later m t → Later m (read_statm r t).1
  unfolding read_statm
  read_statm-Later (read_error n) m t l = l
  read_statm-Later (scanned n f) m t l = l

  step-Later :
      (b : Bool) (read : Monitor N → Bool × Monitor N) (p : Bool × Monitor N) (m : Monitor N)
      → ((t : Monitor N) → Later m t → Later m (read t).1)
      → Later m p.1
      → Later m (step b read p).1
  unfolding step
  step-Later b read (false, t) m h l = l
  step-Later true read (true, t) m h l = h t l
  step-Later false read (true, t) m h l = l

  -- The counters of the io file.
  abbrev Scanned : IoFields → Monitor N → Type 0
  Scanned f t =
      (t.now.rchar ≡ f.rchar)
      × (t.now.wchar ≡ f.wchar)
      × (t.now.read_bytes ≡ f.read_bytes)
      × (t.now.write_bytes ≡ f.write_bytes)

  -- What a successful last reading leaves.
  io-Scanned :
      (b : Bool) (rd : Read IoFields) (n : ℕ) (f : IoFields) (p : Bool × Monitor N) (m : Monitor N)
      → b ≡ true
      → rd ≡ scanned n f
      → Later m p.1
      → (step b (read_io rd) p).0 ≡ true
      → Later m (step b (read_io rd) p).1 × Scanned f (step b (read_io rd) p).1
  unfolding step read_io
  io-Scanned b rd n f (false, t) m eb er l e = absurd (cc)
  io-Scanned false rd n f (true, t) m eb er l e = absurd (cc)
  io-Scanned true (read_error k) n f (true, t) m eb er l e = absurd (cc)
  io-Scanned true (scanned k g) n f (true, t) m eb er l e =
      let same : g ≡ f = scanned_inj k n g f er in
      (
        l,
        (
          ap (λ x. x.rchar) same,
          ap (λ x. x.wchar) same,
          ap (λ x. x.read_bytes) same,
          ap (λ x. x.write_bytes) same,
        ),
      )

  update-io :
      (r : Reading N) (n : ℕ) (f : IoFields) (m : Monitor N)
      → m.has_io ≡ true
      → r.io ≡ scanned n f
      → (update r m).0 ≡ true
      → Later m (update r m).1 × Scanned f (update r m).1
  unfolding update shift
  update-io r n f m has e ok =
      let statm = step-Later m.has_statm (read_statm r.statm) _ m (read_statm-Later r.statm m) (
        step-Later m.has_stat (read_stat r.stat) (true, shift r.time m) m (read_stat-Later r.stat m)
          (refl, refl)) in
      io-Scanned m.has_io r.io n f _ m has e statm ok

  -- Two successive updates of a process whose io file is open succeed, and the kernel's counters are
  -- read modulo 2^64 and have risen by less than 2^64. Then the reported traffic is exactly by what
  -- the counters rose, though they wrap; what is reported for the network is that of all io less
  -- that of the storage, or 0 where the latter is more.
  pub update-deltas :
      (r r' : Reading N) (n n' : ℕ) (c c' : IoFields) (m : Monitor N)
      → m.has_io ≡ true
      → r.io ≡ scanned n (wrapped c)
      → r'.io ≡ scanned n' (wrapped c')
      → Rises c c'
      → (update r m).0 ≡ true
      → (update r' (update r m).1).0 ≡ true
      → let t = (update r' (update r m).1).1 in
        (get_total_io_in_bytes t ≡ c'.rchar - c.rchar)
        × (get_total_io_out_bytes t ≡ c'.wchar - c.wchar)
        × (get_storage_in_bytes t ≡ c'.read_bytes - c.read_bytes)
        × (get_storage_out_bytes t ≡ c'.write_bytes - c.write_bytes)
        × (get_network_in_bytes t ≡ (c'.rchar - c.rchar) - (c'.read_bytes - c.read_bytes))
        × (get_network_out_bytes t ≡ (c'.wchar - c.wchar) - (c'.write_bytes - c.write_bytes))
  unfolding get_total_io_in_bytes get_total_io_out_bytes get_storage_in_bytes get_storage_out_bytes
      get_network_in_bytes get_network_out_bytes
  update-deltas r r' n n' c c' m has e e' rise ok ok' =
      let s : Monitor N = (update r m).1 in
      let (l, f) = update-io r n (wrapped c) m has e ok in
      let (l', f') = update-io r' n' (wrapped c') s (l.1 ∙ has) e' ok' in
      let (ri, ri', ro, ro', si, si', so, so') = rise in
      let t : Monitor N = (update r' s).1 in
      let i =
        delta t.now.rchar t.prev.rchar c.rchar c'.rchar f'.0 (ap (λ k. k.rchar) l'.0 ∙ f.0) ri
          ri' in
      let o =
        delta t.now.wchar t.prev.wchar c.wchar c'.wchar f'.1 (ap (λ k. k.wchar) l'.0 ∙ f.1) ro
          ro' in
      let i' =
        delta t.now.read_bytes t.prev.read_bytes c.read_bytes c'.read_bytes f'.2
          (ap (λ k. k.read_bytes) l'.0 ∙ f.2) si si' in
      let o' =
        delta t.now.write_bytes t.prev.write_bytes c.write_bytes c'.write_bytes f'.3
          (ap (λ k. k.write_bytes) l'.0 ∙ f.3) so so' in
      (
        i,
        o,
        i',
        o',
        network _ _ _ _ i i' (omega arith) (omega arith),
        network _ _ _ _ o o' (omega arith) (omega arith),
      )

-- `(name)` as the stat file has it.
drop_last-snoc : (cs : List ℕ) (c : ℕ) → drop_last (cs ++ (c ∷ [])) ≡ some cs
unfolding drop_last
drop_last-snoc [] c = refl
drop_last-snoc (x ∷ []) c = refl
drop_last-snoc (x ∷ y ∷ cs) c = rw (drop_last-snoc (y ∷ cs) c, drop_last) refl

-- The name that the stat file has in parentheses, however many of them it holds itself, is what
-- GetProcessName returns without the outer ones.
get_process_name-parentheses :
    {N : Type 0} (m : Monitor N) (open_paren close_paren : ℕ) (name : List ℕ)
    → m.comm ≡ open_paren ∷ (name ++ (close_paren ∷ []))
    → get_process_name m ≡ some name
unfolding get_process_name drop_first
get_process_name-parentheses m o c name e =
    rw (ap drop_last e ∙ drop_last-snoc (o ∷ name) c, get_process_name) refl
