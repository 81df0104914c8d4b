-- ===== src/BinlogReset/Padding.antt =====
-- `AppendPadding`: how many bytes it writes.
use pika.Prelude.{
  ℕ, zero, suc, ◌+◌, ◌-◌, ◌≤◌, ◌<◌, ◌≡◌, inl, inr, true, List, ◌++◌, arith, ltb, leb, if◌then◌else◌,
  length, length-append, length-replicate, replicate, Bool-cases,
}
use pika.Env.{Env, EnvLaws}
use pika.Status.{Status, ok, is_ok}
use pika.Binlog.Header.{length-record_header}
use pika.RecordType
use pika.Binlog.{block_size, header_size, record_header}
use pika.BinlogReset.{write_padding, append_padding_loop, append_padding}

is_ok-ok : (s : Status) → is_ok s ≡ true → s ≡ ok
is_ok-ok s h = ground arith

module _ (env : Env) (laws : EnvLaws env) where
  open env use {File, contents}

  abbrev pub size_of : File → ℕ
  size_of file = length (contents file)

  write_padding_size :
      (now : ℕ) (file : File) (size left : ℕ)
      → header_size ≤ size
      → (write_padding env now file size left).0 ≡ ok
      → (size_of (write_padding env now file size left).1 ≡ size_of file + size)
        × ((write_padding env now file size left).2 ≡ left - size)
  unfolding write_padding
  write_padding_size now file size left le h =
      let header = record_header RecordType.bad_record (size - header_size) now in
      let stars : List ℕ = replicate (size - header_size) b'*' in
      let file1 = (env.append file header).1 in
      let file2 = (env.append file1 stars).1 in
      ground (
        arith,
        laws.contents-append file header,
        laws.contents-append file1 stars,
        laws.contents-flush file2,
        length-append (contents file) header,
        length-append (contents file1) stars,
        length-append (contents file ++ header) stars,
        length-record_header RecordType.bad_record (size - header_size) now,
        length-replicate {A = ℕ} (size - header_size) b'*',
      )

  append_padding_loop_size :
      (fuel now : ℕ) (file : File) (left : ℕ)
      → left < fuel
      → (append_padding_loop env fuel now file left).0 ≡ ok
      → (size_of (append_padding_loop env fuel now file left).1
            + (append_padding_loop env fuel now file left).2
          ≡ size_of file + left)
        × ((append_padding_loop env fuel now file left).2 < header_size)
        × ((append_padding_loop env fuel now file left).2 ≤ left)
  unfolding append_padding_loop
  append_padding_loop_size zero now file left lt h = elim lt [ ]
  append_padding_loop_size (suc fuel) now file left lt h =
      let size = if leb block_size left then block_size else left in
      let r = write_padding env now file size left in
      elim (Bool-cases (ltb 0 left)) [
        | inr nothing ↦ ground arith
        | inl more ↦ elim (Bool-cases (ltb size header_size)) [
          | inl tail ↦ ground arith
          | inr room ↦
              let big : header_size ≤ size = ground arith in
              let good : is_ok r.0 ≡ true = elim (Bool-cases (is_ok r.0)) [
                | inl y ↦ y
                | inr n ↦ absurd (ground arith)
              ] in
              let written = write_padding_size now file size left big (is_ok-ok r.0 good) in
              let rest : (append_padding_loop env fuel now r.1 r.2).0 ≡ ok = ground arith in
              let less : size ≤ left = ground arith in
              let after =
                append_padding_loop_size fuel now r.1 r.2 (omega (arith, written, big, less))
                  rest in
              rw (more, room, good) (omega (arith, written, after, less))
        ]
      ]

  -- An AppendPadding that returns OK makes the file longer by the number that it reports, which is
  -- less than a header short of what was asked for; below a header nothing is written and the
  -- number stays.
  pub append_padding_lem :
      (now : ℕ) (file : File) (len : ℕ)
      → (append_padding env now file len).0 ≡ ok
      → let r = append_padding env now file len in
        (size_of r.1 ≡ size_of file + (if ltb len header_size then 0 else r.2))
        × (r.2 ≤ len)
        × (len < r.2 + (if ltb len header_size then 1 else header_size))
  unfolding append_padding
  append_padding_lem now file len h = elim (Bool-cases (ltb len header_size)) [
    | inl short ↦ ground arith
    | inr long ↦
        let ended : (append_padding_loop env (suc len) now file len).0 ≡ ok = ground arith in
        let p = append_padding_loop_size (suc len) now file len (omega arith) ended in
        rw long (omega (arith, p))
  ]
