-- ===== src/Lib.antt =====
-- solicit, an HTTP/2 library in Rust: frames, sessions, connections, and the ends that use them.
--
-- The program reads octets from a stream (http/transport.rs), takes frames from them
-- (http/frame/), and a connection (http/connection.rs) turns each received frame into callbacks of
-- a session, which change the streams of a session state (http/session.rs). The client
-- (http/client/mod.rs) and the server (http/server.rs) are sessions with a connection. What they
-- send goes the other way: a prioritizer (http/priority.rs) or a request gives headers and data,
-- the connection makes frames of them and keeps the outbound window, and the transport writes the
-- octets. All paths here are below the directory src of the repository.
--
-- Which file models which part:
--   Base, with its children: octets, words, integers, lists, Boolean tests, and panics as values.
--   Http: http/mod.rs. Http.Error has the error codes and errors, Http.Window the flow-control
--     windows, Http.Response headers, schemes and responses. Http.Run is `HttpResult` of a method
--     that changes its receiver: the state after an error is kept, a panic is a fault.
--   Frame: http/frame/. Frame.Header and Frame.Raw have mod.rs, Frame.Builder has builder.rs, and
--     Data, Headers, Settings, RstStream, Goaway and WindowUpdate the frame types, each with a
--     child RoundTrip on what it looks like on the wire.
--   Session: http/session.rs, the streams in Session.Stream and the session state in Session.State.
--   Priority: http/priority.rs.
--   Connection: http/connection.rs. HttpFrame recognizes frames, Send is the sender, and Handle is
--     what is done with a received frame.
--     Repeat is the loop over `send_next_data` that client/simple.rs and server/mod.rs have, and
--     Keeps is about sessions whose callbacks keep a property.
--   Client and Server: http/client/mod.rs and http/server.rs. Client.Connector is how a client is
--     connected, with the connector for clear text, and Client.Tls is http/client/tls.rs.
--   Transport: http/transport.rs.
--   SimpleClient and SimpleServer: client/simple.rs and server/mod.rs. SimpleClient.Connect has
--     `with_connector`; the children of SimpleServer are about its creation (Establish) and about
--     `handle_next` with its phases: Received, Requests, Staging, Flush and, for all, Serving. The
--     response on its way to the client is in Answer, with its data in Delivery, over
--     Priority.Chunks, Connection.Chunks and Client.Chunks.
--   Async: client/async.rs. Channel is a queue of the standard library, Sender and Receiver are the
--     adapters for the two threads of the socket, Service is the service (Service.Requests what it
--     sends and answers, Service.Loop a turn of it), Front the client that is cloned, and System the
--     steps of the service, the threads and the clients, with the start over a connector in
--     System.Connect.
--   Tests: the properties at concrete inputs, over a stream held in two lists and a simple codec.
--
-- Conventions. An octet buffer is a list of numbers, and machine words are numbers with their
-- wrap-around written out, as in a release build. A panic is `Exec.panic`, or `Run.fault` where
-- there is state. A HashMap is an association list with distinct keys, in any order. Traits are
-- records: `Stream`, `StreamFactory`, `SendFrame`, `ReceiveFrame`, `Session`, `DataPrioritizer`. An
-- object that a method borrows is a part of the state that the method is given and returns. The
-- difference between borrowed and owned octets is erased. Two fields called `data` in the source
-- are `content` and `outgoing` here, and the state `Open` is `open_both`.
--
-- Code of others is a parameter: the `hpack` crate is the record `Hpack`, and what is assumed of it
-- is `IsCodec`; reads and writes of a stream are the record `TransportStream`, and what is assumed of
-- a stream of octets is `IsStream`: reads give the octets in order, some as long as there are any,
-- and every write is taken. Where a write may fail, `IsSink` is assumed instead. The openssl crate is
-- the record `Openssl`, of which nothing is assumed. What `TcpStream::connect` and `try_split` give is
-- an argument. An error of the system is a number.
--
-- Threads. A channel of the standard library is a queue with the number of its senders and whether
-- its receiver is there; the two ends share one state. The loops of the two threads of the socket
-- have two steps, one for a frame and one for the work item that is sent for it, and a step for the
-- error that ends them and drops their ends of the channels; a turn of the service is one step, and
-- so is each call of a client. Steps are taken in any order. A turn that finds no work is `waits`,
-- and taking a frame where there is none is a fault, for the code blocks there. A channel for a
-- response is a number, and the field `answered` of the service is what was sent on them.
--
-- Bounds. The loop of `read_exact` has as much fuel as octets were asked for: each turn that does
-- not end it reads at least one. The loop over `send_next_data` may turn once more than there are
-- octets left in streams and streams open for writes: each turn that sends something takes octets or
-- closes a stream. The loop of `get_response` takes as many frames as its first argument says, since
-- only the peer decides when it ends. Every other loop of the code is over a list.
--
-- Not modelled: logging, the text of errors and debug formatting, the creation of threads and
-- the closing of sockets, which are calls of the standard library, and what the threads and the
-- clients do once the service stopped or panicked.
pub mod Base
pub mod Http
pub mod Frame
pub mod Session
pub mod Priority
pub mod Connection
pub mod Client
pub mod Server
pub mod Transport
pub mod SimpleClient
pub mod SimpleServer
pub mod Async
pub mod Tests
