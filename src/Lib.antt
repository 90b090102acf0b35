-- ===== src/Lib.antt =====
-- proxclt: virtual machines on Proxmox VE, described by an env manifest, planned and provisioned by
-- a workflow, with execution traces that can be verified and replayed.
--
-- The parts and how they interact. pkg/config reads a manifest (kind Env), merges a profile into
-- it, resolves the references to other files, expands placeholders and validates the result.
-- pkg/workflow plans and applies the changes that one node (single_vm.go) or all nodes
-- (multi_node.go) need, and finalizes the installation (finalize.go); it calls pkg/proxmox, the
-- client of the Proxmox API, and the kickstart renderer and ISO builder of pkg/kickstart. pkg/trace
-- writes records of executed steps into a file that a hash chain links, reads and replays it.
--
-- Files and the code they model:
--   Base: Go's strings as lists of bytes (Base.Text), strconv on naturals (Base.Decimal),
--     sort.Strings (Base.Sorting), error values and results (Base.Outcome), lists, Boolean tests.
--   Trace.Schema, Trace.Writer, Trace.Reader, Trace.Replay: the files of those names in pkg/trace.
--     Record, ComputeHash, Validate, VerifyChain, NewWriter, Write, Sync, LoadAll and Replay have
--     their names in snake case. The other modules of Trace prove properties.
--   Config.Model: the types of pkg/config. Config.Validators and Config.Validate: validators.go.
--     Config.Loader: loader.go. Config.Placeholders: resolver.go, for one string; Config.Walk: its walk
--     over the strings of a value, and its paths into one.
--   World: what the program does to the outside (an Event) and what it is answered (a Host).
--   Proxmox.Client, Proxmox.Specs, Proxmox.Vm, Proxmox.Storage, Proxmox.Boot, Proxmox.Snapshot:
--     client.go, vm.go, storage.go, boot.go and snapshot.go of pkg/proxmox; Proxmox.Listing: what
--     these list. Do is `call`, isNotFound `is_not_found`, CreateOpts.Validate `check_opts`.
--   Workflow.Options, Workflow.Plan, Workflow.Apply: single_vm.go of pkg/workflow (resolve and
--     buildCreateOpts; Plan; Apply, Verify, Rollback, Up and Down). Workflow.Finalize: finalize.go.
--     Workflow.Multi: multi_node.go; its child FailFast has the errgroup of applyPlan.
--   Kickstart.Renderer and Kickstart.Cidr: renderer.go of pkg/kickstart. Kickstart.Iso: iso_builder.go.
--     Kickstart.Extract: iso_extractor.go. Kickstart.Ubuntu and Kickstart.Cmdline:
--     ubuntu_iso_builder.go. Kickstart.Disk: the operations on files that these use.
--   Root.Process: clientutil.go of internal/root, and NewClient of pkg/proxmox/client.go. Root.Vm:
--     vm.go, snapshot.go and boot.go. Root.Workflow: workflow.go. Root.Redact: the redaction of
--     config.go. Root.Flags: the renamed flags of root.go. Root.Replay: replay.go. Root.Kickstart:
--     kickstart.go. A command is its RunE; what it prints is its result.
--   Base, Config, Kickstart, Root, Trace and Workflow have a module Tests with small inputs.
--
-- State and effects. The trace writer is a record of the file, its buffer and the last hash. The
-- code that calls the outside is a function of the history of all events, the latest first, to a
-- result and a longer history; a Host answers each event and may depend on the whole history, so
-- that a theorem for every Host covers every behaviour of a server. The code that builds ISOs is a
-- function of a DiskState, the files with their contents and modes, to a result and the DiskState
-- that it leaves; a Machine says which of its operations fail and what the programs that it runs do
-- to the files. Errors are values of the type Error, with the format strings of the source and the
-- arguments. The goroutines of the multi-node Apply are relations of steps in any order.
--
-- Bounds and fuel. Numbers are naturals; the sizes, ports and ids of the program are never negative.
-- The wait for a task and the wait for SSH end when the context of the call is done; how many timers
-- fire until then (`patience`), and how many probes start before the deadline (`attempts`), are
-- parts of a Host. The decimal digits of n have fuel n + 1, which is enough since each round
-- divides by ten. The loop of redactDeferredSecrets has the number of bytes of the string as fuel,
-- which is enough since each round shortens it. A line of a trace is at most `max_line` bytes, and
-- one of xorriso's output at most `max_token`, as for the scanners of the source.
--
-- Not modelled: JSON and YAML, SHA-256, the HTTP transport, text/template, the IPv6 parser of net and
-- the validator package, which are parameters, as are xorriso and mkisofs; strings are compared byte
-- by byte, and white space and letter case are those of ASCII; the view that reflect has of an env,
-- so that the loader takes the walk over its strings as a function, with SHA-256, base64 and the
-- resolution of ref paths; the SSH tunnel and the TLS set-up of NewClient, a function of the
-- process; the command tree of cobra in internal/root and cmd; the mutex around uploads;
-- pkg/license and pkg/state, which are stubs; hooks, which nothing runs; log lines beyond the fact
-- that they are printed; a failure of os.Remove and of os.RemoveAll, whose errors the code drops.
pub mod Base
pub mod Config
pub mod Kickstart
pub mod Proxmox
pub mod Root
pub mod Trace
pub mod Workflow
pub mod World
