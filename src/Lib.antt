-- ===== src/Lib.antt =====
-- multiSSH: a proxy with which machines behind firewalls (agents) stay connected, so that a user can
-- reach them by name with `ssh -J`.
--
-- The parts, and how they interact. An operator makes enrolment passwords; a machine sends one with
-- its keys to `POST /enroll` (cmd/proxy/enroll.go), behind the limiter of the same file, and gets a
-- certificate for its canonical name, which is derived from its host key (internal/sshx/naming.go),
-- and its friendly name; an operator can also make one by hand. It then connects to the agent
-- listener, where `takeConn` bounds the connections in flight, the callback of `main` checks protocol
-- version, revocation (cmd/proxy/revoke.go), certificate and name, and `handleAgent` registers both
-- names in the registry (all in cmd/proxy/main.go). The friendly name is subject to the ledger (cmd/proxy/ledger.go), and
-- each coming and going is recorded (cmd/proxy/sightings.go). A user's jump asks the registry for the
-- connection under a name and pipes the user to a tunnel of it. On the machine, the agent runs an SSH
-- server over the tunnel for the keys of its authorized_keys file, and serves each session channel of
-- it (cmd/agent/main.go). A user who asks for a shell of the proxy gets a page of the targets, and
-- monitoring gets counts of them; both compare what the agents run with the builds that the proxy
-- serves (cmd/proxy/install.go). Requests over HTTP are counted under the address that a trusted
-- reverse proxy saw.
--
-- The files. Each names its source at its top; a definition has the name of the Go function, in snake
-- case.
--   Base: Go strings, maps, `bufio.Scanner`, sorting, decimal numbers, files, and lemmas on them.
--   Names: internal/sshx/naming.go.
--   Protocol: internal/sshx/protocol.go.
--   Limiter: the limiter of cmd/proxy/enroll.go.
--   Enroll: the rest of cmd/proxy/enroll.go, and `SignCert` of internal/sshx/cert.go.
--   Issue: `issueCert` and `issueProxyHostCert` of cmd/proxy/main.go.
--   Registry, Door, Auth, Jump: the registry, `slots` and `takeConn`, the callbacks, and `serveJump`
--     with `openTunnel` of cmd/proxy/main.go.
--   Agents, Handlers: `handleAgent` of cmd/proxy/main.go, one shared access at a time.
--   Page, Health: `handleUser`, `serveListing` and `serveHealth` of cmd/proxy/main.go.
--   Addresses: the addresses and the trusted proxies of cmd/proxy/main.go.
--   Backoff: the accept loop of cmd/proxy/main.go and `maintain` of cmd/agent/main.go.
--   Keys: the files of internal/sshx/sshx.go.
--   Distributor: cmd/proxy/install.go.
--   Embedded: `serveEmbedded` of cmd/agent/main.go.
--   Ledger, Sightings, Revocations: the files of these names in cmd/proxy.
--   Shell: `serveSession` of cmd/agent/main.go.
--   Examples: the theorems with conditions, at concrete data.
--
-- How the code is read. Text is a list of code points, with the length in bytes written out where the
-- code uses it. A Go map is an association list in one order of its range. Connections are numbers, as
-- they are compared by identity only. The time is an argument. A method that holds a lock is one step;
-- what runs concurrently is a sequence of steps in any order (`Handlers.Reach.Reachable`,
-- `Door.Bounded.run`, `Embedded.run`). No loop runs on fuel: each is over a list; `itoa` has as much as
-- the number and one. What a file holds and whether a write succeeds are arguments. SHA-256, argon2id,
-- base64, the parsing and signing of keys and certificates, the wire format of x/crypto/ssh, RFC 3339
-- and the parsing of IP addresses are parameters (`Sha256`, `Library`, `Checker`, `Wire`, `Formats`,
-- `Stamps`, `Ips`) with the documented laws that the proofs use.
--
-- Not modelled: network and terminal input and output, log lines, the JSON forms of
-- files, the landing pages, the terminals and the services of Windows, and the flags of the two
-- programs. The dialling of the agent and the websocket listener are not modelled either.
pub mod Base
pub mod Names
pub mod Limiter
pub mod Registry
pub mod Ledger
pub mod Sightings
pub mod Revocations
pub mod Door
pub mod Protocol
pub mod Auth
pub mod Agents
pub mod Handlers
pub mod Jump
pub mod Page
pub mod Addresses
pub mod Backoff
pub mod Keys
pub mod Distributor
pub mod Health
pub mod Embedded
pub mod Shell
pub mod Enroll
pub mod Issue
pub mod Examples
