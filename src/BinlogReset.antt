-- ===== src/BinlogReset.antt =====
-- `AppendPadding` and `SetProducerStatus` of src/pika_binlog.cc: a log that begins again at a place
-- that another node's log has reached.
pub mod Padding
pub mod Places
use pika.Prelude.{
  ℕ, zero, suc, ◌+◌, ◌-◌, Bool, true, false, List, [], ◌∷◌, ltb, leb, ◌==◌, if◌then◌else◌,
  replicate,
}
use pika.Env.{Env}
use pika.RecordType
use pika.Status.{Status, ok, busy, is_ok}
use pika.Binlog.{
  Binlog, Version, block_size, header_size, record_header, save_version, init_log_file,
}

module _ (env : Env) where
  open env use {File}

  -- The status, the file afterwards and the bytes that are left.
  abbrev pub Padded : Type 0
  Padded = Status × File × ℕ

  -- One padding record of `size` bytes, its header included.
  unfoldable pub write_padding : ℕ → File → ℕ → ℕ → Padded
  write_padding now file size left =
      let bsize = size - header_size in
      let (s1, file1) = env.append file (record_header RecordType.bad_record bsize now) in
      let (s2, file2) = env.append file1 (replicate bsize b'*') in
      let (s3, file3) = env.flush file2 in
      if is_ok s1
      then (if is_ok s2 then (s3, file3, left - size) else (s2, file2, left))
      else (s1, file1, left)

  -- The loop of `AppendPadding`; `*len + 1` rounds are enough, as each takes a header at least.
  unfoldable pub append_padding_loop : ℕ → ℕ → File → ℕ → Padded
  append_padding_loop zero now file left = (ok, file, left)
  append_padding_loop (suc fuel) now file left =
      let size = if leb block_size left then block_size else left in
      let r = write_padding now file size left in
      let again = append_padding_loop fuel now r.1 r.2 in
      if ltb 0 left
      then (if ltb size header_size then (ok, file, left) else if is_ok r.0 then again else r)
      else (ok, file, left)

  -- The status, the file and `*len` afterwards.
  unfoldable pub append_padding : ℕ → File → ℕ → Padded
  append_padding now file len =
      let (s, file', left) = append_padding_loop (suc len) now file len in
      if ltb len header_size then (ok, file, len) else (s, file', len - left)

  -- `DeleteFile` on the file of a number, if there is one.
  unfoldable pub delete_file : ℕ → List (ℕ × File) → List (ℕ × File)
  delete_file n [] = []
  delete_file n ((m, f) ∷ fs) =
      let rest = delete_file n fs in if m == n then rest else (m, f) ∷ rest

  -- The status of the padding is not looked at.
  unfoldable pub set_producer_status : ℕ → Binlog env → ℕ → ℕ → ℕ → ℕ → Status × Binlog env
  set_producer_status now b pro_num pro_offset term index =
      let wanted = if ltb pro_offset 4 then 0 else pro_offset in
      let (s, queue, len) = append_padding now env.new_writable_file wanted in
      let fresh = record b {
        queue = queue;
        pro_num = pro_num;
        older = delete_file pro_num (delete_file 0 ((b.pro_num, b.queue) ∷ b.older));
      } in
      if b.opened
      then (
        ok,
        init_log_file env (
            save_version env fresh
              (record { pro_num = pro_num; pro_offset = len; logic_id = index; term = term })),
      )
      else (busy, b)
