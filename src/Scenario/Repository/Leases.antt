-- ===== src/Scenario/Repository/Leases.antt =====
-- Resource leases are released once.
use testy_mc_testface.Prelude.{
  ◌≡◌, ◌≢◌, String, none, some, arith, lookup, insert, lookup-insert, lookup-insert_self, eq_iff,
  Option-cases, inl, inr,
}
use testy_mc_testface.Scenario.Types.{ResourceLease}
use testy_mc_testface.Scenario.Repository.Records.{PersistedLease, active, released}
use testy_mc_testface.Scenario.Repository.{
  Repository, create_resource_lease, release_resource_lease,
}

-- A second release changes nothing, so the time of the first is kept.
pub release_resource_lease_twice :
    (id at later : String) (r : Repository)
    → release_resource_lease id later (release_resource_lease id at r)
      ≡ release_resource_lease id at r
unfolding release_resource_lease
release_resource_lease_twice id at later r = elim (Option-cases (lookup id r.leases)) [
  | inl missing ↦ ground (arith)
  | inr (l, found) ↦ ground (
    arith,
    lookup-insert_self id (record l { status = released; released_at = some at }) r.leases,
  )
]

-- A lease that was created and then released is known as released at that time, the leases of other
-- identities are as before, and no lease can be created under the identity again.
pub create_release_resource_lease :
    (lease : ResourceLease) (at other : String) (r s : Repository)
    → create_resource_lease lease r ≡ some s
    → let t = release_resource_lease lease.lease_id at s in
      (lookup lease.lease_id t.leases
        ≡ some (record { lease = lease; status = released; released_at = some at }))
      × (lease.lease_id ≢ other → lookup other t.leases ≡ lookup other r.leases)
      × (create_resource_lease lease t ≡ none)
unfolding create_resource_lease release_resource_lease
create_release_resource_lease lease at other r s h =
    let fresh : PersistedLease = record { lease = lease; status = active; released_at = none } in
    let ended : PersistedLease = record {
      lease = lease;
      status = released;
      released_at = some at;
    } in
    let id = lease.lease_id in
    let made = insert id fresh r.leases in
    (
      ground (arith, lookup-insert_self id fresh r.leases, lookup-insert_self id ended made),
      ground (
        arith,
        lookup-insert_self id fresh r.leases,
        lookup-insert id other fresh r.leases,
        lookup-insert id other ended made,
        eq_iff id other,
      ),
      ground (arith, lookup-insert_self id fresh r.leases, lookup-insert_self id ended made),
    )
