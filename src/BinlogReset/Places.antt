-- ===== src/BinlogReset/Places.antt =====
-- The saved producer place against the file that `SetProducerStatus` leaves.
use pika.Prelude.{
  ℕ, ◌+◌, ◌%◌, ◌≤◌, ◌<◌, ◌≡◌, ◌↔◌, true, false, ◌&&◌, arith, ltb, refl, inl, inr, Bool-cases, leb,
}
use pika.Env.{Env, EnvLaws}
use pika.Status.{ok}
use pika.Binlog.{Binlog, block_size, header_size, save_version, init_log_file}
use pika.BinlogReset.{append_padding, set_producer_status}
use pika.BinlogReset.Padding.{size_of, append_padding_lem}

append_padding_none :
    (env : Env) (now : ℕ) (file : env.File) → (append_padding env now file 0).0 ≡ ok
unfolding append_padding
append_padding_none env now file = refl

-- SetProducerStatus on an open log whose padding is written saves an offset less than a header
-- short of the one asked for, sets the place in the block to the end of the file, and the saved
-- offset is the size of the file exactly if the one asked for was not 4 to 7.
pub set_producer_status_places :
    (env : Env) (laws : EnvLaws env) (now : ℕ) (b : Binlog env) (pro_num pro_offset term index : ℕ)
    → b.opened ≡ true
    → (append_padding env now env.new_writable_file pro_offset).0 ≡ ok
    → let r = set_producer_status env now b pro_num pro_offset term index in
      let n = size_of env laws r.1.queue in
      (r.0 ≡ ok)
      × (r.1.version.pro_offset ≤ pro_offset)
      × (pro_offset < r.1.version.pro_offset + header_size)
      × (r.1.block_offset ≡ n % block_size)
      × ((n ≡ r.1.version.pro_offset) ↔ (leb 4 pro_offset && ltb pro_offset header_size ≡ false))
unfolding set_producer_status save_version init_log_file
set_producer_status_places env laws now b pro_num pro_offset term index opened h =
    let start : size_of env laws env.new_writable_file ≡ 0 = rw (laws.contents_new) in
    elim (Bool-cases (ltb pro_offset 4)) [
      | inl small ↦
          let p =
            append_padding_lem env laws now env.new_writable_file 0
              (append_padding_none env now env.new_writable_file) in
          let r = append_padding env now env.new_writable_file 0 in
          let size = laws.filesize-contents r.1 in
          rw (opened, small)
            (
              refl,
              omega (arith, p),
              ground (arith, p),
              rw size,
              (λ e. ground arith, λ e. ground (arith, p, start)),
            )
      | inr large ↦
          let p = append_padding_lem env laws now env.new_writable_file pro_offset h in
          let r = append_padding env now env.new_writable_file pro_offset in
          let size = laws.filesize-contents r.1 in
          rw (opened, large)
            (
              refl,
              p.1,
              ground (arith, p),
              rw size,
              (λ e. ground (arith, p, start), λ e. ground (arith, p, start)),
            )
    ]
