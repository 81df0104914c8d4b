-- ===== src/StableLog/Truncate.antt =====
-- What `StableLog::TruncateTo` of src/pika_stable_log.cc leaves of a log.
use pika.Prelude.{
  ℕ, ◌≤◌, ◌%◌, ◌≡◌, refl, ◌∙◌, ap, inl, inr, true, false, ◌&&◌, ◌||◌, List, [], ◌∷◌, some, none,
  arith, ltb, ◌==◌, Bool-cases, if◌then◌else◌, length, take, length-take,
}
use pika.Env.{Env, EnvLaws}
use pika.Status.{Status, ok, is_ok}
use pika.LogOffset.{LogOffset}
use pika.Binlog.{Binlog, save_version, init_log_file, block_size}
use pika.BinlogReader.{find_older}
use pika.BinlogReset.{delete_file}
use pika.Negotiate.{has_key}
use pika.StableLog.{Disk, DiskLaws, store, purge_loop, purge_file_after, truncate, truncate_to}

module _ (env : Env) where
  pub find_older-delete_file :
      (n m : ℕ) (fs : List (ℕ × env.File))
      → find_older env n (delete_file env m fs) ≡ (if m == n then none else find_older env n fs)
  unfolding find_older delete_file
  find_older-delete_file n m [] = elim (Bool-cases (m == n)) [
    | inl e ↦ rw e refl
    | inr e ↦ rw e refl
  ]
  find_older-delete_file n m ((k, f) ∷ fs) =
      let rest = find_older-delete_file n m fs in
      elim (Bool-cases (k == m)) [
        | inl gone ↦ elim (Bool-cases (m == n)) [
          | inl here ↦ rw (gone, delete_file) (rest ∙ rw here refl)
          | inr other ↦
              let e : (k == n) ≡ false = ground (arith, gone, other) in
              rw (gone, delete_file) (rest ∙ rw (other, e) refl)
        ]
        | inr kept ↦ elim (Bool-cases (k == n)) [
          | inl here ↦
              let e : (m == n) ≡ false = ground (arith, kept, here) in
              rw (kept, here, e, delete_file, find_older) refl
          | inr other ↦ rw (kept, other, delete_file, find_older) rest
        ]
      ]

  module _ (disk : Disk env) (deletes : (n : ℕ) → is_ok (disk.delete_status n) ≡ true) where
    -- The files above a number that are listed are gone, and no others.
    purge_loop_lem :
        (filenum : ℕ) (ns : List ℕ) (fs : List (ℕ × env.File))
        → ((purge_loop env disk filenum ns fs).0 ≡ ok)
          × ((n : ℕ)
              → find_older env n (purge_loop env disk filenum ns fs).1
                ≡ (if has_key n ns && ltb filenum n then none else find_older env n fs))
    unfolding purge_loop has_key
    purge_loop_lem filenum [] fs = (refl, λ n. refl)
    purge_loop_lem filenum (m ∷ ns) fs = elim (Bool-cases (ltb filenum m)) [
      | inl above ↦
          let rest = purge_loop_lem filenum ns (delete_file env m fs) in
          rw (above, deletes m, purge_loop)
            (
              rest.0,
              λ n. elim (Bool-cases (m == n)) [
                | inl here ↦
                    let e : ltb filenum n ≡ true = ground (arith, above, here) in
                    rest.1 n
                    ∙ rw (find_older-delete_file n m fs, here, e)
                        (elim (Bool-cases (has_key n ns)) [ inl k ↦ rw k refl | inr k ↦ rw k refl ])
                | inr other ↦ rest.1 n ∙ rw (find_older-delete_file n m fs, other) refl
              ],
            )
      | inr below ↦
          let rest = purge_loop_lem filenum ns fs in
          rw (below, purge_loop)
            (
              rest.0,
              λ n. elim (Bool-cases (m == n)) [
                | inl here ↦
                    let e : ltb filenum n ≡ false = ground (arith, below, here) in
                    rest.1 n
                    ∙ rw (here, e)
                        (elim (Bool-cases (has_key n ns)) [ inl k ↦ rw k refl | inr k ↦ rw k refl ])
                | inr other ↦ rest.1 n ∙ rw other refl
              ],
            )
    ]

    -- The status and the log are those of a log that was cut at `o` in file `f`.
    abbrev pub Front : Binlog env → List ℕ → LogOffset → env.File → Status × Binlog env → Type 0
    Front b ns o f r =
        (r.0 ≡ ok)
        × (env.contents r.1.queue ≡ take o.b_offset.offset (env.contents f))
        × (r.1.pro_num ≡ o.b_offset.filenum)
        × (r.1.block_offset ≡ o.b_offset.offset % block_size)
        × (r.1.version ≡ record (b.version) {
          pro_num = o.b_offset.filenum;
          pro_offset = o.b_offset.offset;
          logic_id = o.l_offset.index;
        })
        × ((n : ℕ)
            → find_older env n r.1.older ≡ (
                if (o.b_offset.filenum == n) || (has_key n ns && ltb o.b_offset.filenum n)
                then none
                else find_older env n (store env disk b)))

    module _ (envLaws : EnvLaws env) (laws : DiskLaws env disk) where
      -- Of a log whose files are listed, TruncateTo of an offset that lies within the file of its
      -- number leaves the front of that file up to the offset as the one that is written, with the
      -- producer there and the index of the offset as the last, the files below that are there as
      -- they were, and none of the listed ones above, if every file can be deleted, cut and
      -- opened.
      pub truncate_to-Front :
          (b : Binlog env) (ns : List ℕ) (o : LogOffset) (f : env.File)
          → find_older env o.b_offset.filenum (store env disk b) ≡ some f
          → o.b_offset.offset ≤ length (env.contents f)
          → (disk.ftruncate f o.b_offset.offset).0 ≡ false
          → (disk.append_writable_file (disk.ftruncate f o.b_offset.offset).1 o.b_offset.offset).0
            ≡ ok
          → Front b ns o f (truncate_to env disk (some ns) b o)
      unfolding truncate_to purge_file_after truncate save_version init_log_file
      truncate_to-Front b ns o f there within cut opened =
          let filenum = o.b_offset.filenum in
          let purged = purge_loop_lem filenum ns (store env disk b) in
          let same : find_older env filenum (purge_loop env disk filenum ns (store env disk b)).1
              ≡ some f =
            let low : ltb filenum filenum ≡ false = ground arith in
            purged.1 filenum
            ∙ rw low (elim (Bool-cases (has_key filenum ns)) [
              | inl k ↦ rw k there
              | inr k ↦ rw k there
            ]) in
          let kept =
            laws.contents-append_writable_file (disk.ftruncate f o.b_offset.offset).1
              o.b_offset.offset
            ∙ laws.contents-ftruncate f o.b_offset.offset within in
          let size : env.filesize
                (disk.append_writable_file (disk.ftruncate f o.b_offset.offset).1
                  o.b_offset.offset).1
              ≡ o.b_offset.offset =
            envLaws.filesize-contents _
            ∙ ap (λ s. length s) kept
            ∙ omega (arith, length-take o.b_offset.offset (env.contents f), within) in
          rw (purged.0, same, truncate, cut, opened)
            (
              refl,
              kept,
              refl,
              ap (λ n. n % block_size) size,
              refl,
              λ n.
                  find_older-delete_file n filenum
                    (purge_loop env disk filenum ns (store env disk b)).1
                  ∙ elim (Bool-cases (filenum == n)) [
                    | inl here ↦ rw here refl
                    | inr other ↦ rw other (purged.1 n)
                  ],
            )
