-- ===== src/Lib.antt =====
-- A verification library for crypt-controller, a Kubernetes controller that creates Secrets in the
-- namespaces that match the patterns of a Crypt resource, with values from a key-value store.
--
-- Parts and files (paths from the repository's root):
--
--   Kube, Any        the Kubernetes object types in use, and values of the type interface{} with the
--                    type assertions that the code makes
--   Api              pkg/apis/crypt/v1alpha1/types.go, register.go; pkg/apis/crypt/register.go
--   Store            pkg/store/store.go, and by its children pkg/store/{memory,empty,consul,vault,factory};
--                    Contract says which objects a store holds
--   Lister           pkg/client/listers/crypt/v1alpha1/crypt.go
--   Client           pkg/client/clientset/versioned/typed/crypt/v1alpha1/crypt.go
--   Clientset        pkg/client/clientset/versioned/clientset.go and typed/crypt/v1alpha1/crypt_client.go
--   Copies           pkg/apis/crypt/v1alpha1/zz_generated.deepcopy.go, over a heap; Contract says what a
--                    deep copy has to do, Trees how values are read, Every is about all methods
--   Informers        pkg/client/informers/externalversions/factory.go; its child Crypts: generic.go,
--                    crypt/interface.go, crypt/v1alpha1/interface.go and crypt/v1alpha1/crypt.go
--   Controller       controller/controller.go: the interfaces and the state, and by its children
--     Secrets        newSecret, createSecret
--     Sync           findNamespaceMatches, syncHandler
--     Worker         enqueueCrypt, processNextWorkItem, runWorker
--     Handlers       handleNamespaceAdd, handleSecretDelete
--     Start          the options, the recorder and the handlers of New, the shutdown of Run
--     Recovery       the way of a changed Crypt from its handler over the queue to the secrets
--     Threads        Run: the workers step by step, with the handlers and everyone else in between
--   Fake             the fake clients: typed/crypt/v1alpha1/fake/fake_crypt.go, fake_crypt_client.go and
--                    fake/clientset_generated.go of pkg/client/clientset/versioned; Matter says what a fake
--                    and a real client ask for in common
--   Schemes          the registrations of pkg/apis/crypt/v1alpha1/register.go and of the register.go in
--                    scheme and fake of pkg/client/clientset/versioned, and the one in New
--   Main             main.go: flags, set-up and wiring
--     Process        the process with its signals and the timer of Run, as moves
--   Base             shared names, tests, lists, Go maps, results and outcomes
--   Tests            a cluster in memory, the fixture of controller/controller_test.go, the theorems at
--                    concrete inputs
--
-- State. A method of Controller is a function from a World to a World and its result. A World holds the
-- work queue, the cluster's secrets, the events that the recorder was given and the reports (log lines
-- and handled errors). The informers' caches, the store and the API server's list of Crypts are what
-- they are at the moment of a call: the record Controller holds them, and runWorker takes one such
-- record for each round, so that they may change between rounds. Within one call they do not change.
--
-- Threads. A Step is one step of one worker (taking a key and reading the cache, one call of
-- createSecret, or the end of a round), one whole handler, a change of the cluster by another client, or
-- a change of the queue with time or by a shutdown; Reach is any number of them. Each worker's step sees
-- caches and a store of its own; what a round reads of the caches it reads when it takes the key. What
-- other clients do and how the queue changes are relations that the theorems take. A worker that has
-- panicked stays where it is while the others go on, until the process ends by the panic, as it may in
-- Process; in Go it ends at once, so that the model has more behaviours than the program. wait.Until
-- would run a worker that has ended once more, to end at once, since its queue is shut down.
--
-- Process. A Move of the process is a step of the goroutine that waits for signals, a signal, the end of
-- the set-up, a Step without workers while Run waits for the caches, the passing of the five minutes
-- that Run allows for that wait, its being cut short by the closed stop channel, its end with the caches
-- in sync or not, a Step of the controller, an end by a panic of a worker or a handler, or the return of
-- main. Moves counts the signals and the timers that have run out. A signal is dropped unless the
-- goroutine is at a receive, as the package signal does with a channel that has no room, and kills the
-- process before signal.Notify.
--
-- Panics. An Outcome is a value or a panic: a nil dereference, or a type assertion that fails.
-- HandleCrash panics again, and so ends the process.
--
-- Parameters. client-go, apimachinery, regexp, the Consul and Vault clients and the JSON decoder enter
-- as records of functions: WorkQueue, SecretApi, Env, Indexer, RestClient, StatusErrors, Library,
-- Packages, Reactors, Trackers, SchemeApi and the two records Api. What a theorem assumes of them is a
-- record of laws: IsFaithful and Serves for the cluster's secrets, IsOwnership for owner references,
-- Drains for a queue that is shutting down, IsHonest for requests of unknown outcome, IsExclusive for a
-- queue that gives out a key only while it is not being processed, HoldsCrypts and KnowsNotFound for
-- caches that hold Crypts, StandsFor for reactors that answer as a server does, KeepsPairs for what
-- Consul holds, IsSchemeApi for registrations with schemes; copying an ObjectMeta is assumed to be deep.
-- The modules of Tests meet each of them. Making a limiter changes the Limiters of Library, so that
-- making one and making two differ. Client/Served has what an API server makes of the requests of the
-- Crypt client.
--
-- Loops. Each loop over a slice or a map is a recursion on its list. runWorker recurs on the list of its
-- rounds, which is long enough if it has one round more than the queue has items once that is shutting
-- down. A Go map is the list of its entries in the order of one range over it.
--
-- Heap. Elsewhere maps and slices are values, since no other code writes to one that it shares. Copies
-- has them at addresses. Everything that is made in a copy is put in the heap when it is complete, so a
-- loop that fills a slice in place returns the elements, and the slice is allocated after.
--
-- Texts are native strings. In the factory a store type is the list of its runes, since ToLower and
-- TrimSpace walk it.
--
-- Not modelled: what an event broadcaster does, what HandleCrash logs, the parsing of flags, and the
-- codecs over a scheme, which are calls of other packages; the metadata of a list; and the REST client
-- and the discovery client of the fake clientset, which nothing calls.
pub mod Base
pub mod Kube
pub mod Api
pub mod Any
pub mod Store
pub mod Lister
pub mod Client
pub mod Clientset
pub mod Copies
pub mod Informers
pub mod Fake
pub mod Controller
pub mod Schemes
pub mod Main
mod Tests
