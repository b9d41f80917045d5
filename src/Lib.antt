-- ===== src/Lib.antt =====
-- A verification library of the backend of APO, an observability platform. The backend
-- (backend/pkg) serves a user interface: it keeps alert rules and Alertmanager receivers of
-- Kubernetes in memory, builds queries for ClickHouse and Prometheus, scores the services, and
-- keeps users, roles, teams and permissions in a database.
--
-- The files, and the code that each of them models, with paths below backend/pkg:
-- - Kubernetes.AlertRules: repository/kubernetes/metadata.go, alert_rules.go. `Metadata` is the map
--   from files to rule groups and rules; `add_alert_rule`, `update_alert_rule`,
--   `delete_alert_rule`, `check_alert_rule_exists` and `get_alert_rules` are its methods. Marshal
--   has AlertRuleMarshalToYaml and ParseAlertRules, Query has the filter, Files has the laws.
-- - Kubernetes.Labels: `GetLabel` of utils.go and `checkOrFillGroupsLabel` of the alerts service.
-- - Kubernetes.Paging: `pageByParam`, which AlertRules.Query uses.
-- - Kubernetes.Receivers: the receivers and routes of metadata.go. Names, Deletion and Renaming
--   have the laws of the three operations on one configuration, with its routes at every depth.
-- - Kubernetes.ConfigMaps: `getConfigMap` and `updateConfigMap` of k8s_api.go, and the interface of
--   the client of Kubernetes with its laws.
-- - Kubernetes.RuleApi: dao_alert_rule.go, which composes the check of a rule, the change of
--   `Metadata`, Marshal and the config map. Agreement says when a file in memory and its text
--   belong together, Calls has sequences of calls, Writable and Failures what can fail and what
--   is left.
-- - Kubernetes.ReceiverApi: dao_alert_manager_config.go in the same way, and `GetAMConfigReceiver`.
-- - Clickhouse.SqlBuilder: repository/clickhouse/sql_builder.go. Placeholders counts the values
--   that a query binds, Merge has `MergeWheres`, Conditions the other conditions.
-- - Prometheus.P9xBuilder and Prometheus.Duration: repository/prometheus/p9x_builder.go and
--   helper.go.
-- - Prometheus.Metrics: repository/prometheus/metric_map.go. Refines has `MergeMetricResults` as a
--   change of a map from keys to groups, Entered the keys that get a group. Red models
--   red_metric_groups.go, Keys models metric_keys.go and the labels of dao.go.
-- - Access.Transaction: repository/database/transaction.go, and what is used of a table. Steps has
--   the relations that say which steps a transaction has taken.
-- - Access.Difference: the loop that finds what to add and what to delete, which the services of
--   roles, permissions and teams share. Access.Memberships has the laws of the tables that link
--   users to roles and teams.
-- - Access.Roles, Access.Permissions, Access.Teams: services/role, services/permission and
--   services/team, with dao_role.go, dao_permission.go and dao_team.go of repository/database.
-- - Access.RoleCreation: services/role/service_create_role.go, with the permissions of a created
--   role in Granted.
-- - DataGroups.ViewPermission: services/data/service_check_datasource_permission.go. Scanned has
--   the laws of the maps that it makes of the groups, Authorised
--   the law of what it writes from them, Granted that law in terms of the groups.
-- - DataGroups.Grants and DataGroups.GroupSubjects: dao_auth_data_group.go of repository/database,
--   `DataGroupOperation` and `GroupSubsOperation` of services/data.
-- - Overview.Alerts: model/alert_status.go, and the counting of alert events by instance.
-- - Overview.Instances: model/service_instance.go, the map of instances by their ids. Added has the
--   law of `AddInstances`, IdMap those of `GetInstanceIdMap`.
-- - Overview.RygLight: services/serviceoverview/service_ryg_light.go. Services has the merge of the
--   results of its queries, Response the loop over the merged groups that builds the answer,
--   Unpanicked why no light of it panics, Responded which services it has.
-- - Overview.Endpoints and Overview.Services: services/serviceoverview/sortrule.go, the orders of
--   endpoints and their grouping into services.
-- - Common: tests on numbers, lists, maps as association lists, decimal numbers and texts.
--
-- Go's ints and ids are natural numbers; where the code subtracts, the model says what it does at
-- zero. Counts of type uint64 wrap at 2 ^ 64. All loops are over lists and end without fuel. A map
-- is a list of entries, and what the code reads from a map in an order of Go's choice is stated
-- for every list. A mutex that is held from the first line of an operation to its end makes the
-- operation one step. A panic is a value of its own.
--
-- Parameters: the database (a table has rows; a read gives those that it asks for, an insertion
-- adds rows and a deletion takes rows away), the client of Kubernetes (a write that succeeds
-- leaves what was written, and one that fails may leave anything), floats and their printing,
-- the durations and the YAML of the Prometheus packages, and the values that a query binds.
--
-- Not modelled: the HTTP layer, the SQL that a server runs, and the copies of code of other
-- projects under model.
pub mod Common
pub mod Access
pub mod Overview
pub mod Kubernetes
pub mod DataGroups
pub mod Clickhouse
pub mod Prometheus
