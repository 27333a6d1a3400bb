-- ===== src/Lib.antt =====
-- becloudless: the generator of the Kubernetes chart schemas and the operator's command line.
--
-- The chart generator (kube/charts/base/build) fetches the JSON schema of every resource kind and
-- rewrites it by a pipeline of mutations (kube/charts/base/templates/resources/mutations), each of
-- which walks over the nodes of the schema. The models follow the data from a JSON value upwards.
--
--   Json               values of encoding/json, the maps and lists that the code reads and writes
--   Walk               mutations/helpers.go: WalkSchemaNodesWithPath; Walk/Plain has WalkSchemaNodes,
--                      Walk/Nodes says what the nodes of a schema are, Walk/Stages, Walk/Rule and
--                      Walk/Fuel have the proofs about every visit, and Walk/Visited the nodes that
--                      are visited
--   Mutations          mutations/mutation.go: MutateSchema, and the helpers on `type` of helpers.go
--   Mutations/*        one module for each mutation, named for its folder; EditedNodes has what
--                      listShorthands and refs share, and Pipeline is build/pipeline.go
--   Git                cli/pkg/git/changes.go: the commits of a branch and the files they change;
--                      Prefixes is cli/pkg/cmd/ci/ciChanges.go, and Urls the addresses of
--                      cli/pkg/git/utils.go and cli/pkg/docker/registry.go
--   Charts             cli/pkg/cmd/ci/ciChart.go: the charts that a change makes the CI build, in the
--                      order of their dependencies
--   Disks              cli/pkg/cmd/nixos/hardware/disks/nixosHardwareDisks.go: the tree of the block
--                      devices and the search for a mount point; Disks/Devices has the names and the
--                      chains of devices, Disks/Listing the filters and Disks/Command the list
--   Bootstrap          cli/pkg/cmd/kube/kubeBootstrap.go: Values and Owned have the values of the charts
--                      and the resources handed over to flux, Render the rendering of the apps of a
--                      group, Plan, Commands and Apply what is applied and in which order, and Remote
--                      the command as a whole; Merged, Marked, Ordered and Complete have the proofs
--   Flux               cli/pkg/flux/utils.go and the walks over flux resources of
--                      cli/pkg/cmd/kube/kubeBootstrapOld.go, which Chosen is about
--   Runners            cli/pkg/system/runner and cli/pkg/utils/shell.go: what a runner hands on;
--                      Runners/Words reads the lines as a shell does
--   Versions           cli/pkg/version/version.go: the next version; Versions/Next has the proofs
--   Deduplication      kube/charts/base/build/optimize.go: the subschemas of a schema and the removal of
--                      the extensions, with the proofs in Lessened and Stripped; Pointers has the
--                      order of the documents and the JSON pointers
--   References         kube/charts/base/build/fetchOpenapi.go: resolveOpenAPIRefs
--
-- A map is an association list whose first entry of a key counts; Go's maps have no order, and no
-- statement depends on it. A write to a map returns the new map: the schemas are trees, so no other
-- part of a schema sees the write. Numbers are carried along as text. `%q` is modelled on ASCII.
-- The recursions over a schema take fuel; the models give them the depth of the schema, as every
-- call goes into a part of it. The rounds of Charts take as much fuel as there are charts and one
-- more, as each round but the last selects one, and its visits as much as there are selected charts
-- and one more, as a chart is visited once. Following the references of a document takes as much as
-- it has components and one more, as a component in progress is not followed again. The search for
-- a mount point takes one unit for the device, one for each child and one for the end. The chain of a
-- device is walked without a bound in the code, so its steps are a parameter.
--
-- What go-git reads from a repository, what the folder of the charts holds, the YAML library, Helm and
-- how a program ends are parameters; the programs that are run are a list of calls. Log lines, and the contexts that callers put around an error, are left out.
--
-- Not modelled: fetching, the Helm templates, the command line and the code that only passes arguments
-- to another program.
mod Prelude
pub mod Json
pub mod Walk
pub mod Mutations
pub mod Git
pub mod Charts
pub mod Deduplication
pub mod References
pub mod Disks
pub mod Bootstrap
pub mod Flux
pub mod Runners
pub mod Versions
mod Tests
