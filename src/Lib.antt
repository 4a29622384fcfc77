-- ===== src/Lib.antt =====
-- persistent-pod-state keeps the IP address and the node of a KubeVirt virtual machine instance
-- (VMI) or of a StatefulSet's pod across deletions.
--
-- A controller watches VMIs and StatefulSets that carry two annotations, reserves the addresses in
-- Calico (IPReservation) and stores address and node in a PersistentPodState of the same name. A
-- mutating webhook reads that object when a VMI or a pod is created, and pins it to both. A second
-- controller keeps the webhook's certificate and the webhook configurations of the cluster in
-- order. The parts meet in the API server only, so they are modelled as functions over its state.
--
-- Files, with the code that they are about:
--   Base                     strings as lists of bytes, maps as association lists, Go's results
--   Api                      api/apps/v1alpha1/persistentpodstate_types.go and the fields used of
--                            the objects of Kubernetes, KubeVirt and Calico; reflect.DeepEqual on
--                            a status
--   Features                 pkg/features/features.go: the two switches
--   Cluster                  the calls of client.Client as a record (Defs), what is documented of
--                            them (Laws), and an API server in memory (Memory)
--   Controller/Events        internal/controller/apps/persistentpodstate_event_handler.go and
--                            persistentpodstate_statefulset_handler.go
--   Controller/Reconcile     Reconcile in persistentpodstate_controller.go
--   Controller/Vmi           VmiAutoGeneratePersistentPodState
--   Controller/Sets          StatefulSetAutoGeneratePersistentPodState in
--                            persistentpodstate_statefulset.go
--   Controller/Reservations  createOrUpdateIPReservation
--   Controller/Save          how both runs create or update the object
--   Controller/Save/Race     the same for a StatefulSet, a call at a time, beside other writers
--   Webhook/Mutating         internal/webhook/pod/mutating/mutating_handler.go: Handle
--   Webhook/Pin              what it writes into an object
--   Webhook/SetName          getStatefulSetNameFromPod
--   Webhook/Server           internal/webhook/server.go: the maps of handlers and gates
--   Webhook/EndToEnd         controller and webhook together
--   Certs/Writer             internal/webhook/util/writer/certwriter.go and error.go
--   Certs/SecretStore        internal/webhook/util/writer/secret.go
--   Certs/DirectoryStore     internal/webhook/util/writer/fs.go
--   Certs/Folder             WriteCertsToDir and prepareToWrite in fs.go, on any directory
--   Certs/Generator          internal/webhook/util/generator/selfsigned.go and util.go
--   Atomic                   internal/webhook/util/writer/atomic/atomic_writer.go: the validation
--   Atomic/Write             Write, where calls of the file system succeed
--   Atomic/Calls             calls of the file system that may fail, and Atomic/Steps: Write as the
--                            sequence of its calls
--   Environment              internal/webhook/util/util.go
--   Health                   internal/webhook/util/health/checker.go, and Checker in
--                            internal/webhook/server.go
--   WebhookController        internal/webhook/util/controller/webhook_controller.go
--   Configuration            internal/webhook/util/configuration/configuration.go
--   Startup                  cmd/main.go, Initialize and WaitReady in internal/webhook/server.go,
--                            and SetupWithManager of the controller, as a step relation
--   Clients                  pkg/client/registry.go and generic_client.go
--   Examples                 concrete objects, on which the theorems are applied
--
-- A function of the code is a function of the same name in snake_case. A call that changes the
-- cluster takes its state and returns it; an error is a value, and a nil dereference or an
-- index out of range is `panic`. Loops go over lists, but for two, which have fuel: the
-- printing of a number nine, enough for the ten digits of 32 bits, and the way up from a path
-- to its directories (`sub_paths`) the length of the path, enough since each round makes it
-- shorter. In Controller/Save/Race the number of tries on a conflict is a parameter.
--
-- What is not code of the repository is a parameter: the API server (`Client`, `SecretApi`,
-- `ConfigurationApi`), encoding/json, the decoder and the patch between two encodings (`Codec`,
-- `Formats`), crypto/x509 (`Crypto`, and `Pki` for the generator), the webhook server (`WebhookServer`), net/http
-- (`Http`), the constructors of clients (`Constructors`) and KubeVirt's IsRunning. The writers
-- and the webhook controller take the certificate generator by its interface. A quiet cluster
-- is one that answers each call and in which nobody else writes meanwhile (`IsQuiet`).
--
-- Not modelled: logging; the informers and the queue of client-go, and that the worker's loop
-- is begun anew each second; how long the start waits; the branch of the atomic writer for
-- Windows; generated clients; the parsing of the flags; directories under the names of the
-- certificate's files.
pub mod Base
pub mod Api
pub mod Environment
pub mod Features
pub mod Health
pub mod Atomic
pub mod Certs
pub mod Cluster
pub mod Configuration
pub mod Controller
pub mod Webhook
pub mod WebhookController
pub mod Startup
pub mod Clients
pub mod Examples
