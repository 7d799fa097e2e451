-- ===== src/Broker/CephServer/Cache.antt =====
-- The cache of Ceph's command table.
use cube_advisor_agent.Base.{
  ◌-◌, ◌<◌, ◌≡◌, refl, List, arith, Bytes, ok, err, ltb, not, ◌&&◌, Bool-cases, ◌⊎◌, inl, inr,
  Result-cases,
}
use cube_advisor_agent.Broker.Ceph.{CephCommand}
use cube_advisor_agent.Broker.CephServer.{CephNode, TableCache, ceph_table, hour, is_nil}

-- A table that is used is the one in the cache, read less than an hour ago; without one the cache
-- stays as it was, and the table could not be read.
pub ceph_table_fresh :
    (node : CephNode) (c : TableCache)
    → ((t : List CephCommand) × (((ceph_table node c).1 ≡ ok t)
          × ((ceph_table node c).0.table ≡ t)
          × (node.now - (ceph_table node c).0.read_at < hour)))
      ⊎ ((why : Bytes) × (((ceph_table node c).1 ≡ err why)
            × ((ceph_table node c).0 ≡ c)
            × (node.read_table ≡ err why)))
unfolding ceph_table
ceph_table_fresh node c =
    elim (Bool-cases (not (is_nil c.table) && ltb (node.now - c.read_at) hour)) [
      | inl young ↦ rw (young, ceph_table) (inl (c.table, (refl, refl, ground arith)))
      | inr old ↦ elim (Result-cases node.read_table) [
        | inl (t, e) ↦ rw (old, ceph_table, e) (inl (t, (refl, refl, ground arith)))
        | inr (why, e) ↦ rw (old, ceph_table, e) (inr (why, (refl, refl, refl)))
      ]
    ]
