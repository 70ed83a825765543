-- ===== src/Lib.antt =====
-- A model of the choerodon cluster agent: the part of the agent that keeps an environment of a
-- Kubernetes cluster in step with its configuration repository, and the parts that it stands on.
--
-- Resource is pkg/util/resource/resource.go: the identifiers of resources (`ResourceID`), their printed
-- form, the three regular expressions as one matcher of word groups, the encodings and the sets.
-- Resource/Parsing is about the printed forms and Resource/Sets about the sets.
--
-- Manifest is pkg/kubernetes/resource/load.go and resource.go: `BaseObject`, the YAML splitter
-- (`splitYAMLDocument` is `split_yaml_document`), the scanner that `ParseMultidoc` runs (`scan_all`),
-- `ParseMultidoc` itself and `Load`. The scanner reads a text that is already there; Manifest/Splitting
-- is about reading it in parts. Its fuel is one more than the length of the text:
-- every document takes at least one byte. A scanner that overflows its buffer is a result of its own.
--
-- Sync is `Sync` of pkg/gitops/gitops_sync.go with `Cluster.Sync` of pkg/kubernetes/kubernetes.go: from the
-- objects of the repository, the changed objects and the export of the cluster to a change set.
-- Sync/Certificates is `convertCertificateToSecret` and `convertSecretToCertificate`, and Sync/Round is
-- `doSync`: a round reads the repository (Manifest), labels and converts what changed, calls `Sync`, logs
-- an event and moves the tag. Its effects on the outside are a list, in their order. Where the round is the
-- first, the source uses one map for all resources and for the changed ones; the labels then reach both,
-- which the model leaves out, since only the keys of the other map are used from there on.
-- Sync/Schedule is `syncLoop`, `AskForSync` and `SyncInterval`: the timer and the channels of one
-- environment, as steps that goroutines take in any order.
--
-- Cluster is the export of an environment: the kinds of pkg/kubernetes/resourcekinds.go with their filters
-- by labels, and `Export` of pkg/kubernetes/kubernetes.go. The lists of the API server, the YAML encoder and
-- the order in which Go visits the map of kinds are parameters. Cluster/Exporting, Cluster/Selection,
-- Cluster/Scanned and Cluster/Documents follow a resource from its list to the document that `ParseMultidoc`
-- reads; Cluster/Deleting puts the export and `Sync` together.
--
-- Labels is `LabelRepoObj` of pkg/kube/client.go: what a resource of the repository gets before it is
-- applied. Labels/Selected puts it together with the filters of Cluster. Labels/Converting is
-- `ConvertCertificate`, with Labels/Converting/Hiding about what the filters make of its secrets. A round
-- of Sync takes the labelled manifest and the converted certificate as they come.
--
-- Agent is the agent that keeps the environments. Agent/Namespaces is the set of pkg/agent/namespace, and
-- Agent/Managers the list of pkg/util/operator, which Agent/Managing uses as the handlers do. Agent/Loops
-- is `listenEnvs` of pkg/gitops/gitops.go with what stops its goroutines. A turn of its loop has two
-- halves, since it waits for a token between them: Agent/Loops/Turns interleaves the halves of several
-- calls with deletions and disconnections, Agent/Loops/Channels, Agent/Loops/Held, Agent/Loops/Keeping and
-- Agent/Loops/Listening are about what these leave, and Agent/Loops/Starting and Agent/Loops/Uninterrupted
-- about a call that is not interrupted. Agent/Environments is `AddEnv`, `DeleteEnv` and `InitAgent` of pkg/command/agent on the state
-- that all of these share, with children on `DeleteEnv`'s loop (Forgetting), on adding and deleting
-- (Adding) and on initialising (Initialising). A handler is one step there, and the goroutine of `WithStop` that
-- it starts another, with its turns uninterrupted; `InitAgent` is the part under its lock, and the flag that
-- it sets after the unlock a step of its own. The handlers of two commands that run at the same time are
-- not interleaved.
-- Agent/Ssh is pkg/gitops/gitops_ssh.go, the files of ssh.
-- Agent/Resync is pkg/agent/sync/sync_resource.go: the reports by namespace (Reporting) and the goroutines
-- that `ReSync` stops and starts (Restarting), counted by what they wait for. Agent/Worker is
-- pkg/agent/worker.go: the goroutines of the commands as steps in any order, over a table of handlers that
-- answer as the world outside lets them, and may send and return new commands.
--
-- Releases is the life of one Helm release: `Reconcile` of pkg/controller/c7nhelmrelease puts commands into
-- the channel from the operation that Labels writes, and the handlers of pkg/command/helm answer them.
-- Releases/Installing follows an operation to its end, and Releases/Retrying the attempts of an
-- installation. The outcomes of Helm are a list, one for each command, so that a run needs no fuel.
--
-- Status is `SyncStatus` of pkg/command/helm/helm_helper.go with the look-ups of pkg/kube/client.go;
-- Status/Honest is about what it reports.
--
-- Kubectl is `Kubectl.Apply` of pkg/kubectl/kubectl.go, the applier of a change set: Kubectl/Order is the
-- order by kinds and Kubectl/Failures the errors. `sort.Sort` is an interface, `Sorter`, which the tests
-- fill with an insertion sort. Describe, Scaler, ApplySingleObj and Do are not modelled: each is one run of the
-- program.
--
-- Git is pkg/git: the parsers of git's output and of its errors, Git/Commands the commands by their
-- arguments, Git/Repository the mirror of a repository (`Repo` of repo.go) with `Start` as a loop over its
-- status, and Git/Working the checkouts of working.go. Git/Starting and Git/Readiness about `Start`, and Git/Lines about the parsers. `Start` takes fuel
-- for its turns: three for the beginning and three for each wake, since the status goes from new to ready
-- in two. The error texts of a context that is over are a parameter, as are the run of git and the world
-- that it changes. The rounds of Sync take the answers of a checkout as they come, and do not look into
-- these commands.
--
-- Pipe is pkg/util/pipe/pipes.go: the wait group, the handler and the closing of a pipe as steps that
-- goroutines take in any order, Pipe/Frames is `cutAndWriteMessage` and Pipe/AntiShake `trafficAntiShake`. The
-- goroutine that reads a log for the latter, and the channel between them, are left out.
--
-- Websocket is pkg/websocket/client.go: `Loop` and `connect` with the queue of responses (Websocket/Responses
-- is about them), Websocket/Retries is `doWithBackOff`, Websocket/Registry the connections of pipes and the
-- end of the client as steps that goroutines take in any order, and Websocket/Downloads
-- `HandleDownloadLog`. A run of `Loop` is over a list of dials, so it needs no fuel.
--
-- Polaris is pkg/polaris: Polaris/Config the configuration and `IsActionable`, Polaris/Audit the results of
-- containers, pods and controllers (pkg/polaris/validator), and Polaris/Summary the counts. A `uint` wraps
-- at 2^64. Polaris/Checks says where results come from, Polaris/Checks/Complete which checks have one, and
-- Polaris/Summary/Counting what is counted.
--
-- Base has the shared vocabulary: tests, lists, dictionaries and texts. A Go map is an association list
-- with one entry for each key; the order of its entries stands for the order in which Go visits them. A
-- text is the list of its bytes.
--
-- The YAML decoder and encoder, git, kubectl, Helm, the API server, the controller library, the websocket,
-- the JSON schemas and the sort are parameters or inputs. Not modelled are the Helm client, the metrics, the other calls of the API server, the other controllers and the handlers of commands
-- about single resources: they call libraries for the most part, and what they decide themselves is left to
-- later work. Texts with bytes beyond ASCII keep their bytes under `to_lower`, which is what the formats of
-- identifiers need.
pub mod Base
pub mod Resource
pub mod Manifest
pub mod Sync
pub mod Pipe
pub mod Agent
pub mod Cluster
pub mod Git
pub mod Kubectl
pub mod Labels
pub mod Polaris
pub mod Releases
pub mod Status
pub mod Websocket
