-- ===== src/Files/Tail/Lines.antt =====
-- tail.c: how many lines come out.
use operating_systems_theory.Files.Tail.{
  scan, Scan, found, go_on, buf_size, seek_back, bytes_to_read, resume, tail,
}
use operating_systems_theory.Common.{
  ℕ, List, [], arith, drop, get_or, if◌then◌else◌, length, refl, suc, take, zero, ◌+◌, ◌<◌, ◌==◌,
  ◌∷◌, ◌≡◌, ◌-◌, ◌∙◌, ◌≤◌, Bool-cases, inl, inr, ==→eq, ltb, some, ◌%◌, ◌⊎◌, Option, ◌≢◌,
}

unfoldable pub newlines : List ℕ → ℕ
newlines [] = 0
newlines (c ∷ cs) = (if c == b'\n' then 1 else 0) + newlines cs

get_or-take : (file : List ℕ) (n i : ℕ) → i < n → get_or (take n file) i 0 ≡ get_or file i 0
get_or-take file zero i h = absurd (omega arith)
get_or-take [] (suc n) i h = refl
get_or-take (c ∷ file) (suc n) zero h = refl
get_or-take (c ∷ file) (suc n) (suc i) h = get_or-take file n i (omega arith)

get_or-drop : (file : List ℕ) (at i : ℕ) → get_or (drop at file) i 0 ≡ get_or file (at + i) 0
get_or-drop file zero i = let e : 0 + i ≡ i = omega arith in rw e refl
get_or-drop [] (suc at) i = refl
get_or-drop (c ∷ file) (suc at) i =
    let e : suc at + i ≡ suc (at + i) = omega arith in rw e (get_or-drop file at i)

-- A suffix has the newlines of the next one, and its first byte.
newlines-drop :
    (file : List ℕ) (at : ℕ)
    → at < length file
    → newlines (drop at file)
      ≡ (if get_or file at 0 == b'\n' then 1 else 0) + newlines (drop (suc at) file)
unfolding newlines
newlines-drop [] at h = absurd (omega arith)
newlines-drop (c ∷ file) zero h = refl
newlines-drop (c ∷ file) (suc at) h = newlines-drop file at (omega arith)

newlines-drop-le : (file : List ℕ) (at : ℕ) → newlines (drop at file) ≤ newlines file
unfolding newlines
newlines-drop-le file zero = omega arith
newlines-drop-le [] (suc at) = omega arith
newlines-drop-le (c ∷ file) (suc at) = omega (arith, newlines-drop-le file at)

-- A scan that began with `n` lines to find, `total` of them from the end of the file on, has counted
-- the newlines from its place on. Where it stops, a newline stands just before the output.
abbrev Scanned : List ℕ → (total from : ℕ) → Scan → Type 0
Scanned file total from (go_on fewer) = newlines (drop from file) + fewer ≡ total
Scanned file total from (found i) =
    (0 < i) × (newlines (drop (from + i) file) ≡ total) × (get_or file (from + i - 1) 0 ≡ b'\n')

-- One round: the byte read decides between stopping, a line found, and going on.
scan_step :
    (file : List ℕ) (n total from i nlines : ℕ)
    → get_or (take n (drop from file)) i 0 ≡ get_or file (from + i) 0
    → newlines (drop (from + i) file)
      ≡ (if get_or file (from + i) 0 == b'\n' then 1 else 0) + newlines (drop (suc (from + i)) file)
    → newlines (drop (suc (from + i)) file) + nlines ≡ total
    → ((k : ℕ)
        → newlines (drop (from + i) file) + k ≡ total
        → Scanned file total from (scan (take n (drop from file)) i k))
    → Scanned file total from (scan (take n (drop from file)) (suc i) nlines)
unfolding scan
scan_step file n total from i nlines here line h rec =
    rw here (elim (Bool-cases (get_or file (from + i) 0 == b'\n')) [
      | inr other ↦ rw other (rec nlines (ground (arith, line, other)))
      | inl newline ↦ elim (Bool-cases (nlines == 0)) [
        | inr more ↦ rw (newline, more) (rec (nlines - 1) (ground (arith, line, newline, more)))
        | inl last ↦
            let next : from + (i + 1) ≡ suc (from + i) = omega arith in
            let back : from + (i + 1) - 1 ≡ from + i = omega arith in
            rw (newline, last)
              (
                omega arith,
                rw next (omega (arith, h, ==→eq nlines 0 last)),
                rw back (==→eq (get_or file (from + i) 0) b'\n' newline),
              )
      ]
    ])

scan-Scanned :
    (file : List ℕ) (n total from i nlines : ℕ)
    → i ≤ n
    → from + i ≤ length file
    → newlines (drop (from + i) file) + nlines ≡ total
    → Scanned file total from (scan (take n (drop from file)) i nlines)
unfolding scan
scan-Scanned file n total from zero nlines small fits h =
    let e : from + 0 ≡ from = omega arith in rw e at h
scan-Scanned file n total from (suc i) nlines small fits h =
    let here : get_or (take n (drop from file)) i 0 ≡ get_or file (from + i) 0 =
      get_or-take (drop from file) n i small ∙ get_or-drop file from i in
    let next : from + suc i ≡ suc (from + i) = omega arith in
    let line = newlines-drop file (from + i) (omega arith) in
    scan_step file n total from i nlines here line (rw next at h)
      (λ k e. scan-Scanned file n total from i k (omega arith) (omega arith) e)

-- What the search backwards finds: as many newlines as asked for, or all of them, from there on; and
-- it stops at the first byte, behind a newline, or where it has read a whole number of chunks.
pub record IsStart (file : List ℕ) (total at : ℕ) : Type 0 where
  pub within : at ≤ length file
  pub count : newlines (drop at file) ≡ (if ltb (newlines file) total then newlines file else total)
  pub boundary : (at ≡ 0) ⊎ ((get_or file (at - 1) 0 ≡ b'\n') ⊎ ((length file - at) % buf_size ≡ 0))

-- The place that a scan of `n` bytes finds is behind one of them.
abbrev ScanFits : ℕ → Scan → Type 0
ScanFits n (found i) = i ≤ n
ScanFits n (go_on fewer) = Unit

IsStart-all : (file : List ℕ) (total n : ℕ) → newlines file + n ≡ total → IsStart file total 0
IsStart-all file total n h = record {
  within = omega arith;
  count = ground arith;
  boundary = inl refl;
}

-- A place from which as many newlines follow as are asked for.
IsStart-exact :
    (file : List ℕ) (total at : ℕ)
    → at ≤ length file
    → newlines (drop at file) ≡ total
    → ((at ≡ 0) ⊎ ((get_or file (at - 1) 0 ≡ b'\n') ⊎ ((length file - at) % buf_size ≡ 0)))
    → IsStart file total at
IsStart-exact file total at fits h b = record {
  within = fits;
  count = ground (arith, newlines-drop-le file at);
  boundary = b;
}

resume-IsStart :
    (file : List ℕ) (total from n : ℕ) (next : ℕ → Option ℕ) (r : Scan)
    → from + n ≤ length file
    → ScanFits n r
    → Scanned file total from r
    → ((fewer : ℕ)
        → newlines (drop from file) + fewer ≡ total
        → (start : ℕ) × (next fewer ≡ some start) × IsStart file total start)
    → (start : ℕ) × (resume r from next ≡ some start) × IsStart file total start
resume-IsStart file total from n next (go_on fewer) fits small h rec = rec fewer h
resume-IsStart file total from n next (found i) fits small h rec =
    (from + i, refl, IsStart-exact file total (from + i) (omega arith) h.1 (inr (inl h.2)))

scan-ScanFits : (buf : List ℕ) (i nlines n : ℕ) → i ≤ n → ScanFits n (scan buf i nlines)
unfolding scan
scan-ScanFits buf zero nlines n h = tt
scan-ScanFits buf (suc i) nlines n h = elim (Bool-cases (get_or buf i 0 == b'\n')) [
  | inr other ↦ rw other (scan-ScanFits buf i nlines n (omega arith))
  | inl newline ↦ elim (Bool-cases (nlines == 0)) [
    | inl last ↦ rw (newline, last) (omega arith)
    | inr more ↦ rw (newline, more) (scan-ScanFits buf i (nlines - 1) n (omega arith))
  ]
]

-- The chunk in front of `at`: it ends there and is not empty, and whole chunks follow its start.
chunk-bounds :
    (len at : ℕ)
    → at ≤ len
    → (at ≢ 0 → (len - at) % buf_size ≡ 0)
    → at ≢ 0
    → (at - bytes_to_read at + bytes_to_read at ≡ at)
      × (0 < bytes_to_read at)
      × (at - bytes_to_read at ≢ 0 → (len - (at - bytes_to_read at)) % buf_size ≡ 0)
chunk-bounds len at fits whole some_left =
    let w = whole some_left in (ground arith, ground arith, λ ne. ground arith)

seek_back-IsStart :
    (k : ℕ) (file : List ℕ) (total at nlines : ℕ)
    → at < k
    → at ≤ length file
    → (at ≢ 0 → (length file - at) % buf_size ≡ 0)
    → newlines (drop at file) + nlines ≡ total
    → (start : ℕ) × (seek_back k file at nlines ≡ some start) × IsStart file total start
unfolding seek_back
seek_back-IsStart zero file total at nlines fuel fits whole h = absurd (omega arith)
seek_back-IsStart (suc k) file total at nlines fuel fits whole h = elim (Bool-cases (at == 0)) [
  | inl none_left ↦
      let e = ==→eq at 0 none_left in
      rw none_left (at, refl, rw e (IsStart-all file total nlines (rw e at h)))
  | inr some_left ↦ elim (Bool-cases (nlines == 0)) [
    | inl all_found ↦
        let e = ==→eq nlines 0 all_found in
        rw (some_left, all_found)
          (
            at,
            refl,
            IsStart-exact file total at fits (omega (arith, h, e))
                (inr (inr (whole (ground arith)))),
          )
    | inr more ↦
        let n = bytes_to_read at in
        let from = at - n in
        let (ends, not_empty, whole') = chunk-bounds (length file) at fits whole (ground arith) in
        rw (some_left, more)
          (resume-IsStart file total from n (seek_back k file from)
            (scan (take n (drop from file)) n nlines) (omega (arith, ends))
            (scan-ScanFits (take n (drop from file)) n nlines n (omega arith))
            (scan-Scanned file n total from n nlines (omega arith) (omega (arith, ends))
              (rw ends h))
            (λ fewer e.
              seek_back-IsStart k file total from fewer (omega (arith, ends, not_empty))
                (omega (arith, ends)) whole' e))
  ]
]

length-drop_all : (file : List ℕ) → drop (length file) file ≡ []
length-drop_all [] = refl
length-drop_all (c ∷ file) = length-drop_all file

-- `tail` always finishes. It writes a suffix of the file that has exactly as many newlines as lines
-- are asked for, or all newlines of the file if it has fewer; and the suffix begins at the start of
-- the file, behind a newline, or where it has a whole number of 1024-byte chunks.
pub tail-IsStart :
    (file : List ℕ) (nlines : ℕ)
    → (at : ℕ) × (tail file nlines ≡ some (drop at file)) × IsStart file nlines at
unfolding tail newlines
tail-IsStart file nlines =
    let (at, e, s) =
      seek_back-IsStart (length file + 1) file nlines (length file) nlines (omega arith)
        (omega arith) (λ ne. omega arith) (rw (length-drop_all file) (omega arith)) in
    (at, rw e refl, s)
