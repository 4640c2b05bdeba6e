-- ===== src/Lib.antt =====
-- anycall is a request and response protocol over Redis lists, with a Python and a Java
-- implementation. This library models the Python one, implementations/python/lib/src/anycall/,
-- with its sample programs, implementations/python/example-supplier/ and
-- implementations/python/example-consumer/, and the visualizer,
-- tools/visualizer/src/visualizer/.
--
-- A client pushes a request on the list of its method and waits on a list of its own for the
-- response. A server takes requests with a Lua script that names it as the owner in the
-- in-flight hash, and answers with a pipeline that drops the entry after the push. Servers keep
-- themselves in a sorted set of heartbeats; whoever finds an owner that is not in it, a server
-- at its heartbeat or a client that has been quiet, fails the owner's requests back.
--
-- Prelude, Text, Json, Assoc, Sets: native numbers with their tests, texts as lists of code
--     points, the JSON that the standard library's json module writes and reads, association
--     lists and sets of texts.
-- Errors: exceptions.py. An exception is a value; `unfinished` is raised by nothing in the code:
--     it marks a call whose rounds are used up, a read loop that a limiter blocks, and a wait so
--     short that Redis takes it for one without end. Errors/Hierarchy has isinstance over the
--     class statements.
-- Model: model.py, AnyCallRequest in Model/Request and AnyCallResponse in Model/Response. A
--     field holds any JSON value, as Python does not check annotations.
-- Serialization: serialization.py. What dacite does is an argument.
-- Queues: queues.py. Registry: registry.py.
-- Redis: the commands that the adapter sends, as a record of operations on a state of their own
--     with the documented effect of each as a law; Redis/Memory is an instance.
-- Exec: code over a connection. A round trip takes a turn: first what other processes do to the
--     server, then the command, which is answered or cut off before or after it took effect. A
--     World holds the turns to come, any list of them.
-- Adapter: redis_adapter.py, a method as one or two round trips; times are in microseconds.
-- Reaping: reaping.py.
-- Client: client.py. Client/Decode reads responses, Client/Call has call, raw_call and
--     _call_impl.
-- Server: server.py. Limiters stand in a store since a job may outlive its method's
--     registration; Server/Registration, Server/Requests (a worker) and Server/Loops (the
--     heartbeat tick, and a round of the read loop with the order of the shuffle and the time at
--     the doorbell as arguments). A round that blocks on a limiter is `unfinished`. The method
--     of a supplier is a function of its context and argument. Server/Ticks is a whole heartbeat
--     tick. Server/Wakes is the wake listener over a Pub/Sub handle with the documented effect
--     of each command as a law. Server/Threads interleaves the read loop, the workers,
--     registration, start and stop as a step relation; the loop looks only in queues of methods
--     with capacity, an executor that is not started or shut down refuses a job, whose slots
--     stay taken, and a worker may start any job that is in line, so it covers pools of every
--     size; Server/Threads/Runs, Server/Threads/Refused and Server/Threads/Messages relate the
--     functions of Server/Loops and Server/Requests to its steps.
-- Protocol: an environment for the servers and clients of one Redis as a step relation over the
--     adapter's commands, with the expiry of keys. It is wider than what they send, as it lets
--     anyone push on or pop from any list, drop any in-flight entry and answer any request; so
--     what is shown of every run of it holds of the program's, and it is not a model of what
--     they send. A server takes requests after a heartbeat of its own, which start of server.py
--     sends first; a start whose first heartbeat fails is left out. Protocol/Traced has rules
--     for when an action over a connection stays within this environment, whatever is cut off
--     and with lawful commands of others before each round trip, and goes by them through the
--     methods that the threads of a server and the calls of a client use; Protocol/Lives puts
--     ticks, rounds, jobs and calls in sequence, and a life of one server may stand for what
--     others do in the round trips of another. Protocol/Ticks, and Protocol/Waits with
--     Protocol/Living, are about whom a tick and a waiting client fail back. That Redis's clock
--     does not go back while a command runs is a hypothesis there.
-- Protocol/Called follows one call from its push to its end, through a round of the read loop
--     and a job of a server.
-- Programs: the sample programs. Programs/Supplier has the analyzer and its main program,
--     Programs/Consumer the examples as a script and the main program; what an example prints of
--     an expected error is a value. The file system and what the server's threads do until a
--     signal comes are arguments.
-- Core: core.py, config.py and annotation.py.
-- Visualizer: tools/visualizer/src/visualizer/poller.py. Visualizer/Preview shows a request,
--     Visualizer/Rows and Visualizer/Collect take a snapshot, whose estimates Visualizer/Seen is
--     about, Visualizer/Activity is the tracker's diff with an event as a constructor for each
--     f-string, Visualizer/Thread the loop, and Visualizer/Interface the texts and dicts of
--     app.py. Visualizer/Trees has its trees, with items told apart by numbers, and how their
--     state is carried over a rebuild and copied; Visualizer/Window what a snapshot and its
--     events make of the window, and Visualizer/Backend the choice of a Qt backend. What
--     setCurrentItem does to the other selected rows is an argument, as Qt decides it by mode
--     and keys. The commands that only it sends are a record of reads; the loop of a SCAN is one
--     of them.
-- Examples: concrete data, and the theorems applied to it.
--
-- The loop of _await_response runs on rounds. Each round waits a whole slice of 30 seconds or
-- what is left of the timeout, so a timeout of `n` microseconds needs no more rounds than it has
-- slices (30 seconds is the longest slice), and one more to see that the time is up. A timeout
-- that is not positive waits for ever and has no such bound. The JSON reader runs on fuel, two
-- units for each character of its text and two more.
--
-- Not modelled: logging and metrics, opening and closing of connections, the layout, style
-- sheets, geometry, focus and input of the visualizer's Qt widgets (app.py) and its command line
-- (__main__.py), the tests and the Java implementation.
pub mod Prelude
pub mod Text
pub mod Json
pub mod Errors
pub mod Model
pub mod Serialization
pub mod Queues
pub mod Registry
pub mod Assoc
pub mod Redis
pub mod Exec
pub mod Adapter
pub mod Reaping
pub mod Client
pub mod Examples
pub mod Server
pub mod Programs
pub mod Protocol
pub mod Visualizer
pub mod Core
pub mod Sets
