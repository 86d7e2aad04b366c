-- ===== src/Lib.antt =====
-- srvgov-cli runs shell commands on remote servers under governance: every command gets a risk
-- tier, R0 to R3, from a classifier that reads the command line; the tier, raised for protected
-- contexts, sets the authorization; an audit intent is persisted before the command is sent over
-- SSH, and its outcome behind it. This library models the classifier whole, the functions that put
-- the remote command lines together, the governed run of one command, the buffer that captures its
-- output, and the workers that run many targets at once. It models the audit behind that, too:
-- what an audit event keeps of raw text, and the spool directory that keeps the outcomes which the
-- audit log did not take; the contexts that describe the servers, the governed commands that
-- change them, and the migration of their credentials to a credential backend.
--
-- Cmdclass models internal/cmdclass/cmdclass.go. Cmdclass.Scan is `scan`: a state per unit of the
-- command, and one function for each of its modes. Cmdclass.Classify is `Classify` and
-- `classifySegment`; its record Progress holds the loop's variables. Cmdclass.Commands is
-- `classifyWords`, and Rm, Small, Journal, Ip, Docker, Curl and Wget are the rules of single
-- commands (Small: date, hostname, systemctl, ss and find). Transfer and Urls hold what curl and
-- wget share, Targets the paths that may not be written, Words the tables and the word tests,
-- Options the loops over arguments: where the source holds the arguments and an index, the model
-- holds the argument at the index and those behind it.
--
-- FileWrite is the target, the preflight answers and the content of a file write, in cmd/file.go.
-- Observe.ShellQuote is `ShellQuote` of internal/observe/logs.go, and Observe.Status the parsers
-- of processors, memory and disks in internal/observe/status.go, over the lines that bufio.Scanner
-- yields and a parameter for the redaction of texts. Remote holds the command lines of
-- cmd/file.go, cmd/docker.go, cmd/svc.go and internal/observe/logs.go. Governed is
-- `runGovernedCommand` of cmd/governed_remote.go with `finishMutationAudit` of
-- cmd/mutation_audit.go and `finishRequiredReadAudit` of cmd/read_audit.go: the call is a function
-- from the world's answers to a trace of events and a result; Governed.Stdin is the same of
-- `runGovernedCommandWithStdin`, the run of a file write. Sshexec is `boundedBuffer` of
-- internal/sshexec/sshexec.go. Fanout is the workers of `Run` of internal/fanout/fanout.go as a
-- step relation, where the order in which they end is free. Fanout.Selectors is `parseSelector`
-- and `labelsMatch` of cmd/fanout.go, and Fanout.Loading is `loadFanoutTargets`, behind the
-- reading of the contexts. Fanout.Batch is the fan-out of `runExec` in cmd/exec.go: the plans, the
-- authorization of all of them, the batch intent, the runs of the targets as the workers end them,
-- and the batch outcome. What a run does is one event there, so that how the steps of several runs
-- interleave is left out. Fanout.Outcomes is what follows the runs: the sort of `Run`,
-- `finishFanoutMutationAudit`, the counts of `buildFanoutView` and the error of `printFanout`,
-- where the printer, the audit and the error codes of the shared library are the record
-- BatchWorld.
--
-- Audit models internal/srvgovaudit/audit.go: Events its records, Fingerprints the fingerprints
-- over a parameter Digest for SHA-256, Sanitize the function of that name. Spool models
-- cmd/mutation_audit.go. Names is the file names of the spool, Records the records and the checks
-- that a replay makes of them, Queue the directory and the audit log with what disk and log may
-- answer (SpoolWorld), Replay `replayMutationAuditSpoolLocked`, and Transactions begin, finish and
-- the append of an event: each takes the queue, a log and a directory, to the queue behind it and
-- an error. The lock makes a transaction one step, so the directory that a replay reads is the one
-- that it changes. Governed.finish_mutation_audit is the same function as the one in
-- Spool.Transactions, seen from the command: there its answer is a field of World. Spool.Outcomes
-- is the outcomes that cmd/governed_remote.go, cmd/fanout.go, cmd/audit_prune.go, cmd/install.go
-- and cmd/ctx_migrate.go hand to it. Prune is the choice of the rotated audit logs that
-- cmd/audit_prune.go deletes: PruneWorld is what the directory, Lstat and the parsers of times
-- answer, and a time is a number.
--
-- Contexts models internal/srvgovctx/context.go and the commands on contexts. Normalize is the
-- method of that name, over a parameter Urls for Go's net/url. Control is cmd/control.go: the
-- policies, the authorization, and the transaction in which a change is authorized, audited and
-- written; ControlWorld is what package safety, the audit and the file of the contexts answer.
-- Commands is `ctx use`, `ctx delete`, `ctx role set`, `ctx role unset` and the write of `ctx
-- import`, of cmd/ctx.go, cmd/ctx_role.go and cmd/ctx_portable.go, each as its policy and its
-- change within that transaction. Portable is what an export makes of a context and what an import
-- accepts, between the decoded documents. Credentials models cmd/ctx_migrate.go: the writes of
-- credentials, their application with its compensation, and the rollback, over a parameter Backend
-- for the credential backend: a state, and what `Get`, `Put` and `Delete` answer in it. IsStore
-- says what is relied on of it: that a call changes no other name than its own, and that a call
-- without an error has done what it says. Candidates chooses the contexts to migrate, and
-- Migration is the transaction, which uses the outcomes of Spool.Outcomes and the commits of
-- Contexts.Control. A Go map is the list of its pairs.
--
-- A text is a list of code points; a unit at or above 0x110000 stands for a byte that does not
-- decode. GoText writes out what the source uses of Go's strings, unicode, path, strconv and sort
-- packages. The case tables beyond ASCII and the URL parser are the parameter Std, of which the
-- theorems assume nothing; the trust of the operator, the effective risk, the authorization, the
-- audit log and the SSH session are the record World, of which the theorems assume nothing but
-- what they name. A clean text holds no NUL and no undecodable byte. The fuel of `write_out_loop`
-- is the length of the text plus one, of which each round uses a unit at least; the fuel of `itoa`
-- is the number plus one, which is more than its digits. Go's int is a sign and a natural number
-- where the code tests it for negative values; the sequences of the spool are bounded by 2^64, and
-- the total of an outcome wraps there.
--
-- Not modelled: the command-line shell and its printing, the encoding of JSON and YAML, network
-- and file I/O (its failures are answers of SpoolWorld, ControlWorld and MigrationWorld), the
-- store of contexts of the shared library, `ctx set`, the deletions of a prune, and the parsers of
-- the logs, the ports, the load and the uptime that remote commands print.
pub mod Prelude
pub mod GoText
pub mod Cmdclass
pub mod Observe
pub mod Remote
pub mod Governed
pub mod Sshexec
pub mod Fanout
pub mod Audit
pub mod Spool
pub mod Prune
pub mod FileWrite
pub mod Contexts
pub mod Credentials
pub mod Tests
