-- ===== src/Intake/Uploads/Resume.antt =====
-- What an upload session has accepted stays accepted: each request appends to it or leaves it alone.
use drivebound_storage.Base.{
  ℕ, zero, suc, ◌+◌, ◌-◌, ◌≤◌, ◌≡◌, ◌∙◌, ◌⊎◌, refl, sym, ap, List, [], ◌∷◌, ◌++◌, length, take, ltb,
  arith, Bool-cases, inl, inr,
}
use mathlib.Core.List.{append_assoc, append-nil}
use drivebound_storage.Base.Fault.{
  Result, ok, err, and_then, ok-injective, if-leads, chunk_too_large,
}
use drivebound_storage.Host.{Host, require_storage_path}
use drivebound_storage.Catalog.{Upload}
use drivebound_storage.Encryption.{Bytes, drop, joined}
use drivebound_storage.Encryption.RoundTrip.{length-append, take-append}
use drivebound_storage.Intake.Uploads.{write_at, write_stream, nonzero, receive}

length-take : (n : ℕ) (xs : Bytes) → n ≤ length xs → length (take n xs) ≡ n
length-take zero xs h = refl
length-take (suc n) [] h = absurd (omega (arith, h))
length-take (suc n) (x ∷ xs) h = ap suc (length-take n xs (omega (arith, h)))

take-take : (m n : ℕ) (xs : Bytes) → m ≤ n → take m (take n xs) ≡ take m xs
take-take zero n xs h = refl
take-take (suc m) zero xs h = absurd (omega (arith, h))
take-take (suc m) (suc n) [] h = refl
take-take (suc m) (suc n) (x ∷ xs) h = ap (λ r. x ∷ r) (take-take m n xs (omega (arith, h)))

-- Where the file reaches the position, no gap is filled.
write_at-inside :
    (at : ℕ) (new old : Bytes)
    → at ≤ length old
    → write_at at new old ≡ (take at old ++ new) ++ drop (at + length new) old
write_at-inside at new old h =
    let gap : at - length old ≡ 0 = omega (arith, h) in
    rw gap (sym (append_assoc (take at old) new (drop (at + length new) old)))

written_prefix :
    (at : ℕ) (new old : Bytes)
    → at ≤ length old
    → take (at + length new) (write_at at new old) ≡ take at old ++ new
written_prefix at new old h =
    ap (take (at + length new)) (write_at-inside at new old h)
    ∙ take-append (at + length new) (take at old ++ new) (drop (at + length new) old)
        (length-append (take at old) new ∙ ap (λ n. n + length new) (length-take at old h))

written_length :
    (at : ℕ) (new old : Bytes) → at ≤ length old → at + length new ≤ length (write_at at new old)
written_length at new old h =
    let whole = ap length (write_at-inside at new old h) in
    let parts = length-append (take at old ++ new) (drop (at + length new) old) in
    let front = length-append (take at old) new in
    omega (arith, whole, parts, front, length-take at old h)

kept_prefix :
    (at : ℕ) (new old : Bytes) → at ≤ length old → take at (write_at at new old) ≡ take at old
kept_prefix at new old h =
    sym (take-take at (at + length new) (write_at at new old) (omega arith))
    ∙ ap (take at) (written_prefix at new old h)
    ∙ take-append at (take at old) new (length-take at old h)

-- What the loop does to a file that has `at` bytes or more: it keeps them, and where it succeeds the
-- stream stands behind them, within the declared size.
record Appends (total at : ℕ) (stream : List Bytes) (old : Bytes) (done : ℕ) (x : Result ℕ × Bytes)
    : Type 0 where
  prefix : take at x.1 ≡ take at old
  long : at ≤ length x.1
  accepted :
      (n : ℕ)
      → x.0 ≡ ok n
      → (n ≡ done + length (joined stream))
        × (at + length (joined stream) ≤ total)
        × (at + length (joined stream) ≤ length x.1)
        × (take (at + length (joined stream)) x.1 ≡ take at old ++ joined stream)

take_sum : (at n : ℕ) (xs : Bytes) → n ≡ 0 → take (at + n) xs ≡ take at xs
take_sum at n xs e = ap (λ m. take m xs) (omega (arith, e))

-- One chunk, and then the rest.
one_chunk :
    (total offset done : ℕ) (c : Bytes) (cs : List Bytes) (old : Bytes) (x : Result ℕ × Bytes)
    → offset + done ≤ length old
    → Appends total
        (offset + (done + length c))
        cs
        (write_at (offset + done) c old)
        (done + length c)
        x
    → Appends total (offset + done) (c ∷ cs) old done x
one_chunk total offset done c cs old x long rest =
    let at = offset + done in
    let next = offset + (done + length c) in
    let step = write_at at c old in
    let both = length-append c (joined cs) in
    let shift : next ≡ at + length c = omega arith in
    record {
      prefix =
          sym (take-take at next x.1 (omega arith))
          ∙ ap (take at) rest.prefix
          ∙ take-take at next step (omega arith)
          ∙ kept_prefix at c old long;
      long = omega (arith, rest.long);
      accepted = λ n e.
          let (sum, fits, reaches, shown) = rest.accepted n e in
          (
            omega (arith, sum, both),
            omega (arith, fits, both),
            omega (arith, reaches, both),
            ap (λ m. take m x.1) (omega (arith, both))
                ∙ shown
                ∙ ap (λ r. r ++ joined cs)
                    (ap (λ m. take m step) shift ∙ written_prefix at c old long)
                ∙ append_assoc (take at old) c (joined cs),
          );
    }

write_stream-Appends :
    (ready : Result (Unit {0})) (offset total : ℕ) (stream : List Bytes) (done : ℕ) (old : Bytes)
    → offset + done ≤ length old
    → offset + done ≤ total
    → Appends total
        (offset + done)
        stream
        old
        done
        (write_stream ready offset total stream done old)
unfolding write_stream
write_stream-Appends ready offset total [] done old long small = record {
  prefix = refl;
  long = long;
  accepted = λ n e. (
    omega (arith, ok-injective done n e),
    omega (arith, small),
    omega (arith, long),
    take_sum (offset + done) 0 old refl ∙ sym (append-nil (take (offset + done) old)),
  );
}
write_stream-Appends (err f) offset total (c ∷ cs) done old long small = record {
  prefix = refl;
  long = long;
  accepted = λ n e. cc;
}
write_stream-Appends (ok u) offset total (c ∷ cs) done old long small =
    let at = offset + done in
    let step = write_at at c old in
    if-leads (Appends total at (c ∷ cs) old done) (ltb total (at + length c))
      (err chunk_too_large, old) (write_stream (ok u) offset total cs (done + length c) step)
      (λ _. record { prefix = refl; long = long; accepted = λ n e. cc })
      (λ fits. one_chunk total offset done c cs old _ long (
        write_stream-Appends (ok u) offset total cs (done + length c) step
          (omega (arith, written_length at c old long)) (ground (arith, fits))))

drop-nil : (n : ℕ) → drop n [] ≡ []
drop-nil zero = refl
drop-nil (suc n) = refl

drop-append :
    (m n k : ℕ) (xs ys : Bytes) → length xs ≡ n → k ≡ n + m → drop k (xs ++ ys) ≡ drop m ys
drop-append m n k [] ys h e = ap (λ i. drop i ys) (omega (arith, h, e))
drop-append m n zero (x ∷ xs) ys h e = absurd (omega (arith, h, e))
drop-append m zero (suc k) (x ∷ xs) ys h e = absurd (omega (arith, h))
drop-append m (suc n) (suc k) (x ∷ xs) ys h e =
    drop-append m n k xs ys (omega (arith, h)) (omega (arith, e))

drop-drop : (m n k : ℕ) (xs : Bytes) → k ≡ n + m → drop m (drop n xs) ≡ drop k xs
drop-drop m zero k xs e = ap (λ i. drop i xs) (omega (arith, e))
drop-drop m (suc n) zero xs e = absurd (omega (arith, e))
drop-drop m (suc n) (suc k) [] e = drop-nil m
drop-drop m (suc n) (suc k) (x ∷ xs) e = drop-drop m n k xs (omega (arith, e))

-- A write that ends at the position or before leaves what stands from there on.
kept_rest :
    (at total : ℕ) (new old : Bytes)
    → at ≤ length old
    → at + length new ≤ total
    → drop total (write_at at new old) ≡ drop total old
kept_rest at total new old h fits =
    let end = at + length new in
    let sum : total ≡ end + (total - end) = omega (arith, fits) in
    ap (drop total) (write_at-inside at new old h)
    ∙ drop-append (total - end) end total (take at old ++ new) (drop end old)
        (length-append (take at old) new ∙ ap (λ n. n + length new) (length-take at old h)) sum
    ∙ drop-drop (total - end) end total old sum

-- The loop writes nothing beyond the declared size, however it ends.
write_stream-rest :
    (ready : Result (Unit {0})) (offset total : ℕ) (stream : List Bytes) (done : ℕ) (old : Bytes)
    → offset + done ≤ length old
    → drop total (write_stream ready offset total stream done old).1 ≡ drop total old
unfolding write_stream
write_stream-rest ready offset total [] done old long = refl
write_stream-rest (err f) offset total (c ∷ cs) done old long = refl
write_stream-rest (ok u) offset total (c ∷ cs) done old long =
    let at = offset + done in
    let step = write_at at c old in
    if-leads (λ (x : Result ℕ × Bytes). drop total x.1 ≡ drop total old) (ltb total (at + length c))
      (err chunk_too_large, old) (write_stream (ok u) offset total cs (done + length c) step)
      (λ _. refl)
      (λ fits.
        write_stream-rest (ok u) offset total cs (done + length c) step
          (omega (arith, written_length at c old long))
        ∙ kept_rest at total c old long (ground (arith, fits)))

-- What a request leaves of a session: a failed one keeps the bytes that were accepted before, one
-- that is accepted puts its stream behind them, within the declared size, and neither changes what
-- stands from the declared size on.
abbrev pub Received : Upload → List Bytes → Bytes → Result ℕ × Bytes → Type 0
Received u stream old (err f, file) =
    (take u.offset file ≡ take u.offset old) × (drop u.total_size file ≡ drop u.total_size old)
Received u stream old (ok n, file) =
    (u.offset + n ≤ u.total_size)
    × (u.offset + n ≤ length file)
    × (drop u.total_size file ≡ drop u.total_size old)
    × (((u.offset ≡ u.total_size) × (file ≡ old) × (n ≡ 0))
        ⊎ ((1 ≤ n)
            × (n ≡ length (joined stream))
            × (take (u.offset + n) file ≡ take u.offset old ++ joined stream)))

kept_at :
    (u : Upload) (old file : Bytes)
    → take (u.offset + 0) file ≡ take (u.offset + 0) old
    → take u.offset file ≡ take u.offset old
kept_at u old file h = sym (take_sum u.offset 0 file refl) ∙ h ∙ take_sum u.offset 0 old refl

appended-Received :
    (u : Upload) (stream : List Bytes) (old : Bytes) (x : Result ℕ × Bytes)
    → Appends u.total_size (u.offset + 0) stream old 0 x
    → drop u.total_size x.1 ≡ drop u.total_size old
    → Received u stream old (and_then x.0 nonzero, x.1)
appended-Received u stream old (err f, file) h rest = (kept_at u old file h.prefix, rest)
appended-Received u stream old (ok zero, file) h rest = (kept_at u old file h.prefix, rest)
appended-Received u stream old (ok (suc n), file) h rest =
    let (sum, fits, reaches, shown) = h.accepted (suc n) refl in
    (
      omega (arith, sum, fits),
      omega (arith, sum, reaches),
      rest,
      inr (
        omega arith,
        omega (arith, sum),
        ap (λ m. take m file) (omega (arith, sum))
            ∙ shown
            ∙ ap (λ r. r ++ joined stream) (take_sum u.offset 0 old refl),
      ),
    )

-- A session that has accepted `offset` bytes, of which the staged file has no fewer, keeps them: a
-- request that fails, at whatever chunk, leaves them as they were, so that the client can go on from
-- the same offset. A request that is accepted advances the offset by the length of its stream, to no
-- more than the declared size, and the file then begins with the old bytes and the stream. A session
-- that has all its bytes writes none. No request, failed or accepted, changes what stands from the
-- declared size on.
pub receive-Received :
    (w : Host) (u : Upload) (stream : List Bytes) (file : Bytes)
    → u.offset ≤ length file
    → u.offset ≤ u.total_size
    → Received u stream file (receive w u stream file)
unfolding receive
receive-Received w u stream file long small = elim (Bool-cases (ltb u.offset u.total_size)) [
  | inl y ↦ rw y (
      appended-Received u stream file
        (write_stream (require_storage_path w u.staging_path) u.offset u.total_size stream 0 file)
        (write_stream-Appends (require_storage_path w u.staging_path) u.offset u.total_size stream 0
          file (omega (arith, long)) (omega (arith, small)))
        (write_stream-rest (require_storage_path w u.staging_path) u.offset u.total_size stream 0
          file (omega (arith, long))))
  | inr n ↦
      let full : u.offset ≡ u.total_size = ground (arith, n, small) in
      rw n (omega (arith, small), omega (arith, long), refl, inl (full, refl, refl))
]
