-- ===== src/Lib.antt =====
-- Verification of NetPerfTest: its Go programs, modelled part by part, with the theorems that make
-- the parts correct.
--
-- The programs. `ebpf-stress` loads a BPF object file, attaches its program to a hook, and pins its
-- maps; `ebpf-exporter` opens the pinned maps and turns them into Prometheus gauges; `traffic-gen`
-- sends UDP packets at a rate; `afpacket-stress` opens many AF_PACKET sockets under such traffic;
-- `af_packet_reproducer` starts many tcpdump processes and samples Prometheus meanwhile.
--
-- The files, with the code that they model:
--   Common, Common/*: Boolean tests, lists over the native numbers, `(value, error)` results as a
--     state and error monad, computations that log, uint64 arithmetic that wraps at 2 ^ 64, binary
--     digits, and float64 as an interface.
--   Stress/Loader/*: ebpf-stress/pkg/ebpf/loader.go. Types has `Config`, `Loader` and the calls of
--     the kernel; Attach has `loadSpec`, `attachProgram`, `attachXDP`, `attachTC` and
--     `attachSocket`; Lifecycle has `NewLoader`, `LoadAndAttach`, `SetLoopCount`, `SetEnabled` and
--     `Detach`; Readings has `GetStats`. Resources, Outcomes, Search and Totals are about these.
--   Stress/Main, Stress/Validation, Stress/Session: ebpf-stress/cmd/ebpf-stress/main.go, with
--     `validateConfig`, `run` and `cleanup`; Command has the flags and `main`, Reports has
--     `printStats`, Exits is about the ends of the process.
--   Stress/Program/*: ebpf-stress/bpf/stress.c. Loop has `perform_stress_loop`, Packets has the
--     maps, their helpers and the three programs; Rounds, Totals and Overcount are about these, and
--     Totals joins them to `GetStats`.
--   Exporter/Configuration, Exporter/Interfaces, Exporter/Priority: `applyYAMLConfig`, the choice of
--     the configuration file and `getInterfacesToMonitor` of
--     ebpf-exporter/cmd/ebpf-exporter/main.go.
--   Exporter/Command, Exporter/Process, Exporter/Web: of the same file the flags and `main`, `run`
--     as a whole, and the HTTP handlers; Exits and the children of Process are about these.
--   Exporter/Collector/*: the `Collector` of the same file: `openMaps`, `openLatencyMaps`,
--     `collect`, `collectLatencyMetrics`, `sumPerCPUMap`, `close`.
--   Exporter/Latency/*: ebpf-exporter/pkg/latency/collector.go: `Start`, `Collect`, `Stop`.
--   Exporter/Program/*: ebpf-exporter/bpf/latency.c. Hash has `calculate_packet_hash`, Statistics
--     the maps and their helpers, Packets the three programs; Buckets, Hooks, Unmeasured and XdpOnly
--     are about these, and XdpOnly joins them to `readInterfaceStats`. A field of more than one byte
--     is loaded as on a machine that stores the low byte first, and an arrival that the map drops is
--     an event.
--   Exporter/Collector/Metrics, Exporter/Latency/Metrics: `newMetrics` and the registration of
--     either package, over the registry of Exporter/Registry; Registration is about both.
--   Contract, Contract/Counts: what the first two programs must agree on, the pinned paths and their
--     modes, and the counts from the BPF program to the exporter.
--   Traffic/*: traffic-generator/cmd/traffic-gen/main.go: the split of the rate over the workers,
--     the pacing by batches, the senders; Workers has the workers at the same time, as a step
--     relation over the shared counters, Reports has `reportStats` and the final statistics, and
--     Command the flags and `main`, whose ends Ends is about.
--   Afpacket/*: traffic-generator/cmd/afpacket-stress/main.go: the sockets and `htons`, their
--     creation in batches, the receivers, the senders, the reading of the softirq percentage, the
--     reports, and in Run the `main` that makes and closes the sockets; Receivers has the receivers
--     at the same time, as a step relation.
--   Reproducer/*: af_packet_reproducer/main.go. Prometheus has the PromQL queries,
--     `queryPrometheus`, the functions that gather a sample, and `Collect`; Charts has `SaveCharts`
--     and the nine plot functions; Discovery has `discoverPrometheus`, `setupPortForward` and the
--     search for the pod; Captures has the tcpdump processes, Files has `getCaptureStats`, Sizes has
--     `formatBytes`; Monitoring has `main` with its set-up, its creation of sockets and its loop,
--     which Runs is about.
--
-- State and calls. A struct is a record, and an operation a function on it. The kernel, netlink and
-- the BPF file system are parameters: a record `System` whose `answer` gives the result of a call
-- from all calls made before. Each call is recorded with its answer in a trace, the newest first,
-- and what is opened and closed is counted there. A Prometheus gauge is the list of its sets. YAML
-- parsing, `time.ParseDuration` and `strconv.ParseFloat` are parameters in the same way, and so are
-- net/http, the Kubernetes clients and gonum/plot, whose errors are numbers. A panic of the program
-- is a result of its own. Go ranges over a map in no fixed order: the order is an argument. The
-- Prometheus registry is a record of operations with the laws that its documentation states, for
-- descriptors that it holds to be valid.
--
-- Integers. Counters are uint64 and wrap. Go's `int` is the signed integers without its bounds; a
-- duration is its nanoseconds. Sizes and numbers of sockets, packets and workers are taken not to be
-- negative, but for the packet size of traffic-gen, at which its `main` may panic. float64 is the
-- interface `Floats`, of which nothing is assumed.
--
-- Loops. Loops over data are structural recursion. A loop that waits for signals, ticks or packets
-- takes the list of what it receives. Two loops run on fuel. `progressiveSocketCreation`: one unit
-- for each socket and one more is enough where the batch size is positive, and no fuel is where it
-- is 0. `formatBytes`: six units are enough for any int64.
--
-- Interleavings. The workers of traffic-gen and the receivers of afpacket-stress run as steps in any
-- order, down to the single atomic additions. The exporter serves rounds of its collector and
-- requests in any order, and the goroutine of the collector may go on for some rounds around
-- `close`. The goroutine of afpacket-stress that makes sockets may go on behind the closing loop,
-- which comes between two of its tries. The other goroutines are modelled one at a time.
--
-- Not modelled: the texts that are printed around the numbers, the reading of the arguments and the
-- help, which are the work of cobra and the package flag, the HTTP server, the locks, each held for
-- a whole operation, and `Close` of the reproducer's collector, which stops the forwarding.
pub mod Common
pub mod Stress
pub mod Exporter
pub mod Traffic
pub mod Afpacket
pub mod Contract
pub mod Reproducer
