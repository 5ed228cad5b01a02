-- ===== src/Lib.antt =====
-- DBHA, the high-availability service of the DBM databases (dbm-services/common/dbha-v2): the core
-- of its analysis service, which takes failed database instances in, waits in a window for those
-- that fail together, chooses a switching strategy for them, and switches them over.
--
-- The parts, and the files that model them:
--   Window.antt: internal/analysis/workflow/sliding_window.go. A window of failed instances for each
--   business and the marks of the instances that are being switched. `push`, `pop`,
--   `pop_and_mark_start`, `mark_done` are the methods of the same names; the manager is their state.
--   Window/Inflight.antt runs them in any order, as the scan loop and the pop loop do.
--   Failure.antt: failure_collector.go, the failed instance and the failure group, and the keys that
--   the parts share.
--   Strategy.antt: strategy.go, and MatchStrategyForGroup of switch_flow.go.
--   Flow.antt and Flow/Handling.antt: popAndSwitchForBiz and handleFailureGroup of workflow.go, with what they call of
--   switch_flow.go and dbhav1_whitelist.go: from a pop, over the groups, the metadata, the strategy and
--   the whitelist, to the call of a switcher, and the release of the marks. It uses the
--   three above.
--   Switch.antt: internal/analysis/switcher/switchcore, the procedures that switch one instance
--   (Switch/Single.antt), the instances of a cluster (Switch/Cluster.antt) or of a host
--   (Switch/Host.antt and Switch/Host/Processing.antt), and their limits (Switch/Limits.antt).
--   Tracker.antt: internal/analysis/workflow/lock_tracker.go, the switch lock of a business that
--   popAndSwitchForBiz takes: callers of one process share etcd's lock by counting.
--   Mysql.antt: internal/analysis/switcher/mysql.go, how the MySQL switcher takes a request apart and
--   reports what failed, with the response of switcher.go.
--   Slave.antt and Slave/Checks.antt: internal/analysis/switcher/mysql/mysql_slave_checker.go, whether
--   the standby slave of a failed master may take over.
--   Takeover.antt, Takeover/Instance.antt and Takeover/Cluster.antt: mysql_switch_instance.go and
--   mysql_switch_cluster.go of the same directory, how the standby slave takes over. They use the
--   slave checker, and are what the procedures of Switch.antt call as the switch of an instance and
--   of a cluster. Takeover/Effects.antt has the rules for what holds after a chain of calls.
--   Naming.antt: internal/analysis/switcher/switchcore/instance_name_service.go, how an instance is taken
--   out of the names in DNS, load balancers and Polaris; the takeover calls it through one effect.
--   Sharding.antt: internal/analysis/workflow/instance_discovery.go, how the analysis instances share
--   the businesses by a ring of hashes. It decides for which businesses an instance runs the above.
--   Endpoint.antt: pkg/hanet/endpoint.go, the addresses of the services, as text and parsed.
--   Prelude.antt: lists, texts, maps, sorting and grouping for all of them.
--
-- How the code is modelled: Go's ints that are ids, ports and counts are natural numbers, those that
-- may be negative are integers; no wrap-around arises, since the code only compares and counts them,
-- but in the lag of a slave, which wraps at 2 ^ 64 as in the code.
-- Strings are lists of bytes. A map is a list of its entries in the order of iteration. A method
-- under a mutex is one step. What the code asks of the outside (the clock, the context, a lock, a
-- database, the DBM service, the configuration) is an argument; in the switches it is a function of
-- the trace of calls so far, so that it may answer differently every time. Goroutines over a group
-- run one after the other. Fuel is the number of digits of a decimal, bounded by the number, and
-- the length of the ring for its binary search, which halves.
-- The retries of the whitelist query are three, as in the code.
--
-- Not modelled: log lines, metrics, snapshots and the alarms after a switch; the host and cluster
-- levels of the MySQL switcher and the TenDB cluster; the double check over SSH, the synchronizer;
-- the probe, the receiver and the admin service, which read and write databases; and the generated
-- code.
pub mod Prelude
pub mod Failure
pub mod Window
pub mod Strategy
pub mod Switch
pub mod Flow
pub mod Tracker
pub mod Mysql
pub mod Slave
pub mod Takeover
pub mod Naming
pub mod Sharding
pub mod Endpoint
