-- ===== src/Lib.antt =====
-- A verification library of the shared data service, its RabbitMQ client and the benchmark suite.
--
-- The service (shared_data_service/) stores modules (users, projects) in PostgreSQL and announces each
-- change on a queue; other services' announcements come back through a consumer that keeps a replica.
-- A request goes Routes -> Modules.Service -> Storage.Uow: the route checks scope and filters, the
-- service writes rows in a unit of work and stages an event, the unit of work commits and publishes.
-- A message goes Messaging.Consumer -> Messaging.Registry -> Messaging.Batcher -> Modules.Replica: the
-- dispatch decides between ack and requeue, the batcher groups the states, the replica upserts them
-- under the version guard, once per (source, event id) by the inbox. Both use the client library
-- (rabbit-client-python/), and rabbit-benchmark/ measures that library against others.
--
-- Which file models what:
--   Base         the shared names: Boolean tests, equality, texts as lists of codes, lists
--   Outcome      app/modules/shared/errors.py: how a call ends; exceptions are values
--   Storage      app/database/unit_of_work.py (Uow: enter, stage_event, commit, exit), the inbox of
--                mark_events_processed (Inbox), app/messaging/publisher.py
--   Storable     app/database/storable.py (scan is _scan), valid_name and email_floor
--   Modules      app/modules/shared/: spec.py (Spec), service.py (Service: create, update, get;
--                Replica: apply_state_events), the table under repository.py (Table), its list and
--                list_page (Listing), the Annotated types of validation.py (Fields) and the models
--                that are built of them (Fields.Models); app/modules/user.py, project.py and
--                __init__.py (Catalog)
--   Query        app/modules/shared/query.py and filters.py: parameters, coercion, conditions, LIKE
--   Routes       app/modules/shared/routes.py: the handlers, flat and under a scope; the order of
--                the routes in register, register_scoped and create_app of app/api/app.py (Table);
--                the correlation id of app/api/middleware.py (Correlation)
--   Messaging    app/messaging/batcher.py (Batcher: one step per stretch between awaits), registry.py,
--                consumer.py, cloudevents.py (CloudEvents), and app/database/errors.py
--   Settings     app/config/settings.py: its validators and effective_amqp_url
--   Container    app/bootstrap/container.py (start, start_consumer, stop, readiness) and the status
--                of app/api/health.py; the two processes around a container, the lifespan of
--                app/api/app.py and run_consumer of app/bootstrap/consumer_runner.py (Lifespan)
--   Loadgen      scripts/benchmark.py: the load that bench_api puts on the API, its shares for the
--                load generators and the failures that hammer counts
--   Rabbit       rabbit-client-python/src/hs_rabbit_client/client.py: Client (connect, the declare
--                caches, publish, publish_many, establish_consumer), Watch (on_message, the watchdog,
--                the recovery, the handle), Tasks (consume and close over the set of tasks)
--   Bench        rabbit-benchmark/benchmark/: clients/hybrid_client.py (Hybrid: _consume as events),
--                clients/fake_client.py (Fake), harness.py (Harness), and the runs of
--                benchmarks/preload.py, consume_throughput.py and concurrent_consume.py (Runs);
--                config.py: the defaults and load (Options); runner.py: run_suite as the order of
--                its calls (Suite), build_client and the constructors of the clients (Clients);
--                statistics.py and the measurements of harness.py (Statistics); results.py: asdict
--                (Results), load_json (Results.Load), the rows of save_csv (Results.Rows);
--                clients/aio_pika_client.py (AioPika); the push drains of pika_client.py,
--                aio_pika_client.py and rabbit_client_bench.py (Drains); the executive summary and
--                the tables of reporting/report_generator.py (Report)
--   Tests        concrete runs
-- The paths that begin with app/ or scripts/ stand under shared_data_service/.
--
-- Concurrency is explicit: a state machine's step is what the event loop runs between two awaits, and
-- the theorems are about every sequence of steps. How a commit, a publish, a broker request or a
-- handler ends is an argument, with every end that Python allows, cancellation included.
--
-- Fuel: batches of Rabbit.Client takes the length of the list, enough because each slice takes at
-- least one body; advance_from of Bench.Hybrid takes one more than the number of finished tags, and
-- each turn removes one. The other loops recur on the list or on the count that bounds them.
--
-- Parameters: what SQL evaluates (Modules.Listing.Sql; LIKE and ILIKE in Query.Matches), the parsers
-- of typed values, the parser of messages in Messaging.Consumer, pydantic's coercions and its printing
-- (Modules.Fields.Pydantic), the text of JSON and of times (Messaging.CloudEvents.Codec), FastAPI's
-- matching of paths (Routes.Table.Matcher), urllib.parse and the file system (Settings.Urls),
-- starlette's headers, str.strip, asyncio.gather's choice of an exception, the clock, files and
-- environment variables in Bench.Options, the clients and benchmarks of a suite (Bench.Suite.World),
-- numpy and the arithmetic on floats (Bench.Statistics.Numpy, Bench.Report.Floats), the text of saved
-- results (Bench.Results.Load.Codec), the broker's answers. Those that a theorem has are concrete
-- functions in Tests.
--
-- Not modelled: timestamps, log texts beyond the alerts of a commit, the response, page and filter
-- classes that are built for a module, the construction of the application, the service's reading of
-- environment variables, migrations; of the benchmarks the command line, scaling_efficiency, the
-- description of the machine, the charts and the HTML of the report, and the methods of a client that
-- hand one call on to a library; of scripts/benchmark.py its processes, times and percentiles; and the
-- TypeScript client.
pub mod Base
pub mod Outcome
pub mod Storage
pub mod Storable
pub mod Modules
pub mod Query
pub mod Routes
pub mod Loadgen
pub mod Messaging
pub mod Rabbit
pub mod Bench
pub mod Container
pub mod Tests
pub mod Settings
