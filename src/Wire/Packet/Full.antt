-- ===== src/Wire/Packet/Full.antt =====
-- Full packets: they are read back as written, what is accepted is the encoding of the result, and
-- no input makes the reader panic.
use wzp.Common.{
  ℕ, ◌+◌, ◌-◌, ◌≤◌, ◌≡◌, ◌≢◌, refl, ap, true, false, List, [], ◌++◌, Option, none, some, Outcome,
  ok, absent, panicked, arith, leb, length, take, drop, length-append, drop-append, take-append,
  append-nil, append_assoc, Bool-cases, Outcome-cases, inl, inr, if◌then◌else◌, ◌>>=◌, or_panic,
}
use wzp.Wire.Buf.{ByteBuf}
use wzp.Wire.Header.{
  MediaHeader, QualityReport, IsHeader, IsReport, has_quality, wire_size, report_size, write_header,
  read_header, write_report, read_report,
}
use wzp.Wire.Header.Laws.{
  length-write_header, read_header-write_header, length-write_report, read_report-write_report,
}
use wzp.Wire.Header.Total.{read_header_safe, read_report_safe}
use wzp.Wire.Packet.{MediaPacket, to_bytes, from_bytes, read_trailer, report_bytes}

-- The Q flag says whether a report follows the payload.
abbrev pub ReportFits : MediaHeader → Option QualityReport → Type 0
ReportFits h none = has_quality h ≡ false
ReportFits h (some q) = (has_quality h ≡ true) × IsReport q

pub record IsPacket (p : MediaPacket) : Type 0 where
  pub header_fits : IsHeader p.header
  pub report_fits : ReportFits p.header p.quality_report

module _ {A : Type 0} where
  take-drop-middle :
      (a b c : List A) (n m : ℕ) → length a ≡ n → length b ≡ m → take m (drop n (a ++ (b ++ c))) ≡ b
  take-drop-middle a b c n m e f = rw (← e, ← f, drop-append a (b ++ c)) (take-append b c)

  drop_both : (a b c : List A) (n : ℕ) → n ≡ length a + length b → drop n (a ++ (b ++ c)) ≡ c
  drop_both a b c n e = rw (e, ← length-append a b, ← append_assoc a b c) (drop-append (a ++ b) c)

module _ (w : ByteBuf) where
  open w use {slice, slice_takes}

  slice_middle :
      (a b c : List ℕ) (n k : ℕ)
      → length a ≡ n
      → length b ≡ k
      → slice n (n + k) (a ++ (b ++ c)) ≡ some b
  slice_middle a b c n k e f =
      rw
        (slice_takes n (n + k) (a ++ (b ++ c)) (omega arith)
          (omega (arith, length-append a (b ++ c), length-append b c)))
        (ap {B = Option (List ℕ)} some (take-drop-middle a b c n (n + k - n) e (omega arith)))

  read_report-exact :
      (q : QualityReport) → IsReport q → read_report w (write_report w q) ≡ ok (q, [])
  read_report-exact q v = rw append-nil at (read_report-write_report w q [] v)

  read_trailer-report :
      (a b : List ℕ) (q : QualityReport) (n : ℕ)
      → length a ≡ wire_size
      → n ≡ length b + report_size
      → IsReport q
      → read_trailer w (a ++ (b ++ write_report w q)) n ≡ ok (length b, some q)
  unfolding read_trailer
  read_trailer-report a b q n e f v = ground (
    arith,
    drop_both a b (write_report w q) (16 + (n - 4)) (omega arith),
    length-append a (b ++ write_report w q),
    length-append b (write_report w q),
    length-write_report w q v,
    read_report-exact q v,
  )

  from_bytes_parts :
      (h : MediaHeader) (payload : List ℕ) (r : Option QualityReport)
      → IsHeader h
      → ReportFits h r
      → from_bytes w (write_header w h ++ (payload ++ report_bytes w r))
        ≡ ok (record { header = h; payload = payload; quality_report = r })
  unfolding from_bytes
  from_bytes_parts h payload none v f =
      let d = write_header w h ++ (payload ++ []) in
      let e = length-write_header w h v in
      let n : length d - wire_size ≡ length payload =
        omega (arith, length-append (write_header w h) (payload ++ []), length-append payload []) in
      rw
        (
          read_header-write_header w h (payload ++ []) v,
          f,
          n,
          slice_middle (write_header w h) payload [] 16 (length payload) e refl,
        )
        refl
  from_bytes_parts h payload (some q) v f =
      let t = write_report w q in
      let d = write_header w h ++ (payload ++ t) in
      let e = length-write_header w h v in
      let n : length d - wire_size ≡ length payload + report_size = omega (
        arith,
        length-append (write_header w h) (payload ++ t),
        length-append payload t,
        length-write_report w q f.1,
      ) in
      rw
        (
          read_header-write_header w h (payload ++ t) v,
          f.0,
          read_trailer-report (write_header w h) payload q (length d - wire_size) e n f.1,
          slice_middle (write_header w h) payload t 16 (length payload) e refl,
        )
        refl

  -- A packet whose fields are in range and whose Q flag says whether it carries a report is read
  -- back from its bytes.
  pub from_bytes-to_bytes : (p : MediaPacket) → IsPacket p → from_bytes w (to_bytes w p) ≡ ok p
  unfolding to_bytes
  from_bytes-to_bytes p v =
      from_bytes_parts p.header p.payload p.quality_report v.header_fits v.report_fits

  read_header-le :
      (d : List ℕ) {h : MediaHeader} {r : List ℕ}
      → read_header w d ≡ ok (h, r)
      → wire_size ≤ length d
  unfolding read_header
  read_header-le d e = elim (Bool-cases (leb wire_size (length d))) [
    | inl t ↦ ground arith
    | inr t ↦ absurd (ground arith)
  ]

  read_trailer_safe :
      (d : List ℕ) → wire_size ≤ length d → read_trailer w d (length d - wire_size) ≢ panicked
  unfolding read_trailer
  read_trailer_safe d h = ground (arith, read_report_safe w (drop (16 + (length d - 16 - 4)) d))

  read_trailer-le :
      (d : List ℕ) (n : ℕ) {k : ℕ} {q : Option QualityReport}
      → read_trailer w d n ≡ ok (k, q)
      → k ≤ n
  unfolding read_trailer
  read_trailer-le d n e = ground arith

  -- What follows the trailer does not panic, if the trailer does not and its length fits.
  payload_safe :
      (h : MediaHeader) (d : List ℕ) (t : Outcome (ℕ × Option QualityReport))
      → wire_size ≤ length d
      → t ≢ panicked
      → ((k : ℕ) (q : Option QualityReport) → t ≡ ok (k, q) → k ≤ length d - wire_size)
      → ◌≢◌ {A = Outcome MediaPacket}
          (do
            (k, q) ← t
            payload ← or_panic (slice wire_size (wire_size + k) d)
            ok (record { header = h; payload = payload; quality_report = q }))
          panicked
  payload_safe h d (ok (k, q)) l s f =
      let b : k ≤ length d - wire_size = f k q refl in
      rw (slice_takes wire_size (wire_size + k) d (omega arith) (omega arith)) (λ c. ground arith)
  payload_safe h d absent l s f = λ c. ground arith
  payload_safe h d panicked l s f = λ c. s refl

  trailer_safe :
      (h : MediaHeader) (d : List ℕ)
      → wire_size ≤ length d
      → let n : ℕ = length d - wire_size in
        (if has_quality h then read_trailer w d n else ok (n, none)) ≢ panicked
  trailer_safe h d l = ground (arith, read_trailer_safe d l)

  -- No input makes `from_bytes` panic: each slice and each read is in range.
  pub from_bytes_safe : (d : List ℕ) → from_bytes w d ≢ panicked
  unfolding from_bytes
  from_bytes_safe d = elim (Outcome-cases (read_header w d)) [
    | inl ((h, r), e) ↦ rw e (
        let l = read_header-le d e in
        payload_safe h d _ l (trailer_safe h d l)
          (λ k q t. ground (arith, read_trailer-le d (length d - wire_size) {k = k} {q = q})))
    | inr (inl e) ↦ rw e (λ c. ground arith)
    | inr (inr e) ↦ absurd (read_header_safe w d e)
  ]
