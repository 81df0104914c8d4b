-- ===== src/SyncMaster/Purge.antt =====
-- `BinlogCloudPurge` and `GetSafetyPurgeBinlog`: which log files a master lets go.
use pika.Prelude.{
  ℕ, ◌+◌, ◌-◌, ◌%◌, ◌^◌, ◌≤◌, ◌<◌, ◌≡◌, inl, inr, true, false, ◌&&◌, [], ◌∷◌, some, ltb, leb, arith,
  Bool-cases, if◌then◌else◌,
}
use pika.Env.{Env}
use pika.Status.{ok}
use pika.Binlog.{Binlog, get_producer_status}
use pika.SlaveNode.{SlaveState, is_binlog_sync, is_db_sync}
use pika.SyncProgress.{SyncProgress}
use pika.SyncMaster.{Slaves, purge_limit, get_safety_purge_binlog, unneeded, binlog_cloud_purge}

binlog_db : (state : SlaveState) → is_binlog_sync state ≡ true → is_db_sync state ≡ false
binlog_db state h = ground arith

module _ (env : Env) where
  -- No slave is taking a copy of the database, and each that reads the log has acknowledged a place
  -- in a later file.
  abbrev pub AllPast : ℕ → Slaves env → Type 0
  AllPast index [] = Unit {0}
  AllPast index ((k, n) ∷ slaves) =
      (is_db_sync n.slave_state ≡ false)
      × ((is_binlog_sync n.slave_state && leb n.acked_offset.b_offset.filenum index) ≡ false)
      × AllPast index slaves

  unneeded-AllPast :
      (slaves : Slaves env) (index : ℕ) → unneeded env slaves index ≡ true → AllPast index slaves
  unfolding unneeded
  unneeded-AllPast [] index h = tt
  unneeded-AllPast ((k, n) ∷ slaves) index h = ground (arith, unneeded-AllPast slaves index)

  -- On a log that writes file 10 or a later one, a file that BinlogCloudPurge lets go is at least
  -- ten files behind; no slave is in a database copy, and each slave in binlog sync has
  -- acknowledged a place in a later file.
  pub binlog_cloud_purge_safe :
      (b : Binlog env) (s : SyncProgress env) (index : ℕ)
      → 10 ≤ b.version.pro_num
      → b.version.pro_num < 2 ^ 32
      → binlog_cloud_purge env b s index ≡ true
      → (index + 10 ≤ b.version.pro_num) × AllPast index s.slaves
  unfolding binlog_cloud_purge get_producer_status
  binlog_cloud_purge_safe b s index ten word h = elim (Bool-cases b.opened) [
    | inr closed ↦ absurd (cc (rw closed at h))
    | inl opened ↦ elim (Bool-cases (ltb ((b.version.pro_num + 2 ^ 32 - 10) % 2 ^ 32) index)) [
      | inl beyond ↦ absurd (cc (rw (opened, beyond) at h))
      | inr within ↦ (ground arith, unneeded-AllPast s.slaves index (rw (opened, within) at h))
    ]
  ]

  -- On an open log that writes a file below 10 and has no slaves, BinlogCloudPurge lets the file
  -- that is being written go.
  pub binlog_cloud_purge_unguarded :
      (b : Binlog env) (s : SyncProgress env)
      → b.opened ≡ true
      → b.version.pro_num < 10
      → s.slaves ≡ []
      → binlog_cloud_purge env b s b.version.pro_num ≡ true
  unfolding binlog_cloud_purge get_producer_status unneeded
  binlog_cloud_purge_unguarded b s opened few alone =
      let within : ltb ((b.version.pro_num + 2 ^ 32 - 10) % 2 ^ 32) b.version.pro_num ≡ false =
        ground arith in
      rw (opened, within, alone)

  purge_limit-unneeded :
      (slaves : Slaves env) (m n : ℕ)
      → purge_limit env slaves m ≡ some n
      → (n ≤ m) × (unneeded env slaves n ≡ true)
  unfolding purge_limit unneeded
  purge_limit-unneeded [] m n h = ground arith
  purge_limit-unneeded ((k, x) ∷ slaves) m n h =
      let before = x.acked_offset.b_offset.filenum - 1 in
      ground (
        arith,
        binlog_db x.slave_state,
        purge_limit-unneeded slaves (if ltb before m then before else m) n,
      )

  -- A file that GetSafetyPurgeBinlog names is one that BinlogCloudPurge lets go.
  pub safety_purge-cloud_purge :
      (b : Binlog env) (s : SyncProgress env) (n : ℕ)
      → b.version.pro_num < 2 ^ 32
      → get_safety_purge_binlog env b s ≡ (ok, some n)
      → binlog_cloud_purge env b s n ≡ true
  unfolding get_safety_purge_binlog binlog_cloud_purge get_producer_status
  safety_purge-cloud_purge b s n word h = elim (Bool-cases b.opened) [
    | inr closed ↦ absurd (cc (rw closed at h))
    | inl opened ↦ elim (Bool-cases (leb 10 b.version.pro_num)) [
      | inr few ↦ absurd (cc (rw (opened, few) at h))
      | inl ten ↦
          let found : purge_limit env s.slaves (b.version.pro_num - 10) ≡ some n =
            cc (rw (opened, ten) at h) in
          let (below, free) = purge_limit-unneeded s.slaves (b.version.pro_num - 10) n found in
          let within : ltb ((b.version.pro_num + 2 ^ 32 - 10) % 2 ^ 32) n ≡ false = ground arith in
          rw (opened, within, free)
    ]
  ]
