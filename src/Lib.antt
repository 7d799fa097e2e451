-- ===== src/Lib.antt =====
-- Verification of cube-advisor-agent, the agent that runs on a cluster's node and serves the tools and
-- consoles of a remote service over one tunnel.
--
-- The program's parts, and the files that model them:
-- pkg/tunnelproto/tunnelproto.go, the frames of the tunnel: Proto. Negotiate answers a Hello;
--   Target.Validate and ChannelOpen.Validate are validate_target and validate_open.
-- pkg/tunnel/session.go and the argument frames of pkg/tunnelproto/toolcall.go: Tunnel. Dial and
--   Accept are the ends of the handshake; OpenChannel writes a header line that AcceptChannel reads
--   and validates (open_channel, accept_channel); read_line is the bounded ReadSlice of both framings.
-- internal/agent/serve.go: Agent. serve is the loop of Server.Serve over the returns of
--   AcceptChannel; handle routes an accepted channel, and serve_tool calls the registry.
-- internal/toolplane: Toolplane, a module per file. Registry.New and Registry.Call are new_registry
--   and call, whose state is the audit log and the argvs that ran; Sandbox builds the argv of
--   systemd-run; Level, Consent and Dials read and write the two dials; Truncation cuts output.
-- cmd/agent/settings.go: Settings. configure loads both dials and builds the registry.
-- internal/broker: Broker, a module per broker (Prom, Ceph with CephServer, Host, OpenStack). A
--   handler is a function from the request to the audit records, the answer and the calls of its
--   backend; the Ceph broker carries its cache, the OpenStack broker the state of its source.
-- pkg/tunnel/backoff.go: Backoff. Reconnect and FlapGuard.SessionEnded over a schedule of delays.
-- internal/identity: Identity, over the same Os as the dials. Store holds Load, LoadServer, Exists and
--   the checks of TLSConfig, Writes holds Save, SaveServer and Remove, Enrolment the exchange with the
--   service, Origins and Identity itself the files for the node's own tools; Failures are the errors.
-- internal/openstack/admin.go: Credential reads an openrc file, Credential.Admin is the token cache with
--   its catalogue. Admin's state is paired with a world that holds the clock, the files and Keystone;
--   Admin.Holder says what a client sees of it.
-- internal/console: Console. A handler's result lists the addresses that it dialled.
-- cmd/agent/main.go, clusterid.go, config.go and run.go: Command, with Tokens, Enroll, Config, Run
-- and Sessions.
--   A command is a function from its parsed flags and the files to the files and the exit code.
-- cmd/agent/nodeid.go: NodeName.
-- pkg/release/manifest.go: Release. Build over a directory's listing.
-- enroll writes the files that run starts with: the identity, the tunnel's address and the dials that
-- Settings reads.
-- A tool channel that AcceptChannel accepts goes through handle to call, and the command that call
-- runs reaches the brokers through their sockets; each part that returns leaves its own audit record.
--
-- Text is a list of bytes. Numbers are native; an int that may be negative is a ℤ. An error is a
-- constructor for the test that failed, with the values that its text shows; where a handler returns
-- the text, the text is a parameter. Os states what the dials rely on of the file system, and
-- Os.Memory is an instance. Base.Io is the state with an error that the writing calls share. Parameters
-- are also crypto/x509, crypto/tls and encoding/pem (Pki, with the hypothesis that a key is read back),
-- package flag, yamux, encoding/json (Json, with the hypothesis that a
-- frame is read back), net/url (NetUrl), the HTTP clients, systemd-run, the clock and random bytes.
-- In the OpenStack broker to_lower treats ASCII letters only: the path of a request holds no other
-- letters, and those of an endpoint's own path are kept. NodeName takes strings.ToLower as a whole, with
-- Unicode's table as a parameter. The Prometheus broker's URL is parsed again by net/url, a parameter
-- that may refuse the text; the handler then panics, and that is one of its results.
-- What Backoff.Delay draws is a function of the attempt's number, and another one for every session,
-- since the default's jitter draws each delay anew.
-- The cache of Ceph's table reads the clock once where the code reads it twice.
--
-- Recursion is structural. Fuel stands in strip (the length of the text, which every round shortens),
-- in digits (the number itself, which every round divides by ten), in trim_rounds (the three rounds
-- that the code counts) and in read_line (the size of the code's buffer). The two attempts of the
-- OpenStack handler are two calls.
--
-- Not modelled: processes and sockets (runCommand, LocalCephRun, LocalHostRun, Start), JSON and PEM
-- decoding, the reading of /proc, websocket and HTTP transport, the handlers' context deadlines and,
-- but for the one of the Prometheus broker, their panics, the consoles' pipes, Backoff.Delay
-- (floating-point numbers), what commands print, the lock of Admin (a call is one step), and the
-- manifest's text.
pub mod Base
pub mod Os
pub mod Proto
pub mod Toolplane
pub mod Broker
pub mod Tunnel
pub mod Agent
pub mod Settings
pub mod Backoff
pub mod Identity
pub mod NodeName
pub mod Console
pub mod Command
pub mod Credential
pub mod Release
pub mod Examples
