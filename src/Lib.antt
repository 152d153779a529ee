-- ===== src/Lib.antt =====
-- Verification of the e-commerce order platform (the repository's src folder): the creation of
-- orders and their payments, the transactional outbox, the worker that processes orders, changes of
-- status, the gateway that tells clients about them, the files of users and products, the GraphQL
-- queries of orders, the events of payments in Kafka, and the accounts of users.
--
-- How the parts interact. `OrdersService.create` writes an order, its items, the stock and two
-- outbox events in one transaction, then asks the payments microservice over gRPC to authorize the
-- payment. The relay of the outbox publishes the events to RabbitMQ and Kafka. The processor takes
-- the request from the RabbitMQ queue, marks the order as processed, and retries or dead-letters
-- what fails. Paying for an order publishes an event of the payment to Kafka, which the audit and
-- the analytics read. Staff change the status of an order; each change is announced, and the
-- WebSocket gateway passes it on to the clients that follow the order.
--
-- The files. Code under src/ of the repository is named by its path there.
--   Common           lists, options, signed numbers, and calls that change a state and may throw.
--   Database         src/database/entities: the tables as lists of records, and a query runner: the
--                    committed tables, the copy of an open transaction, and a count of connections
--                    that went back with a transaction open.
--   Runtime          the state of the application around its session (counters of src/metrics,
--                    announced events, lines of src/common/audit), and a reply over gRPC under rxjs's
--                    `timeout`.
--   Auth             src/auth: the payload of a token and the roles (types.ts, access/roles.ts), in
--                    Login the login (auth.service.ts) and the guard (guards/access.guard.ts).
--   Audit            src/common/audit/audit.service.ts: the lines that it writes.
--   Rabbitmq         src/rabbitmq: the three queues, and the delays of retries; Service and Life, the
--                    connection and the channel of rabbitmq.service.ts.
--   PaymentService   src/payment-service: Status (status.mapper.ts), Service (payments.service.ts:
--                    authorize, get_payment_status, capture, refund), Grpc
--                    (payments.grpc.controller.ts), and Ledger, an abstract ledger of payments with
--                    the steps that a request may cause, to which Refinement relates the service.
--   Outbox           src/outbox: Service (outbox.service.ts: add, claim_batch, mark_sent,
--                    mark_failed), Relay (outbox-relay.service.ts: relay_tick; to_kafka is publish of
--                    src/kafka/kafka.service.ts, which sends nothing while it is not ready), and in Relay.Drain
--                    and Relay.Delivery what many ticks do.
--   Orders           src/orders: Create (OrdersService.create in orders.service.ts, its steps in
--                    Steps, the transaction and the catch block in Flow, the route in Endpoint),
--                    Manage (findOne, delete, updateStatus, canSubscribeToOrder; in Overlap two calls
--                    of updateStatus at once), Deletion (delete
--                    after create), Processor (orders-processor.consumer.ts: on_message,
--                    process_order).
--   Payments         src/payments: payOrder (payments.service.ts), the publication of its event
--                    (payments-events.publisher.ts) and the guard (guards/can-pay.guard.ts).
--   Pagination       src/common/pagination/cursor, and OrdersService.findAll, which uses it; in
--                    Slices the pages of a list (paginate-offset.ts, paginate-by-cursor.ts).
--                    The entities of a page are an instance of HasCursor; Plain, Walk, Sorted and
--                    Complete are about queries with one raw row for an entity, Joined about others.
--   Kafka            src/kafka/kafka.service.ts: the life of the wrapper, publish and consume, and in
--                    Stopping what is left after it stopped;
--                    Groups, the offsets of a consumer group; PaymentEvents
--                    (payments-events.publisher.ts of src/payments); Normalizer
--                    (payments-events-normalizer.ts); Consumers (payments-audit.consumer.ts,
--                    payments-analytics.consumer.ts, orders-crm.consumer.ts).
--   Files            src/files: Text (the methods of strings that the code calls), Mime
--                    (extensionFromMime), S3 (s3.service.ts), Presign (createPresignedUpload),
--                    Complete (completeUpload with its transaction).
--   Graphql          src/graphql: findOrders, checkAdminAccessToRead and the models
--                    (services/gql-orders.service.ts, models), Loaders (loaders/loaders.factory.ts),
--                    Resolvers (resolvers/orders.resolver.ts).
--   Users            src/users: create, getById, findAll, update, remove and delete, behind the DTOs of
--                    src/users/v1/dto; Accounts relates them to the login, Removal to the orders.
--   Products         src/products/products.service.ts: findProducts.
--   Api              the controllers under src, each route with its guards; Access says who may change
--                    what.
--   Http             src/common/filters/http-exception.filter.ts.
--   Platform         The parts put together: create, the relay and the consumer.
--   Realtime         src/realtime/orders.gateway.ts.
-- The children of a part hold its proofs and are named for what they prove; Tests holds examples.
--
-- How the code is read. An `async` method is a function from a state to a result and a state. A
-- method that throws returns `err`; what it wrote before stays written unless a rollback undoes it.
-- An uuid is a number, since the program only compares it; money is a whole number of cents; time
-- is in milliseconds. What the database, the brokers, the payments service and the clock choose is
-- an argument of the operation that uses it: fresh ids, the time, rows that other transactions
-- commit meanwhile, the outcome of a publication, the reply to a call. The client of S3 and its
-- signer, the class URL, kafkajs, amqplib, dataloader, base64, JSON, Date and the conversion of a
-- value to a number are parameters too, with what the code relies on as hypotheses. A created_at is
-- in microseconds where Pagination and Graphql read it. A query by the manager of a transaction
-- reads and writes the copy; what a transaction read without a lock may be changed by others before it
-- ends, so a theorem about a call, or about a sequence of calls, is about calls that run one after
-- another, except where the commits of others are an argument (the rivals of create, the meanwhile of
-- updateStatus) and except for the rows that `create`, the relay and completeUpload read FOR UPDATE or
-- like it, which others cannot change until the end. The payments service shares the table of
-- payments: after its commit, create runs the model of its authorize on the committed tables, if the call
-- reached it, while the reply, or its absence, is an argument of its own. The unique keys, foreign keys and numeric bounds that a statement can violate are part of
-- that statement and end with the driver's code. `manager.query` of an UPDATE is read as the code
-- reads it, as the list of the rows that RETURNING names.
--
-- Bounds and fuel. Loops of the source run over lists and are recursion on them. Fuel stands only
-- for how often a client asks for a page, where one page more than there are rows is proved to be
-- enough, for how often the worker takes a message, where one round for each attempt is, for how
-- often a consumer starts again, and for the depth of the stack under the call of itself in
-- UsersService.delete, where the theorems hold for every number. The ticks of the
-- relay are a list, and as many as there are events to send are proved to be enough. Numbers are
-- unbounded: ids and times are not computed with, and the one bound on an amount, that of
-- `numeric(12, 2)`, is tested where the database tests it.
--
-- Not modelled: the decimal arithmetic on strings (it rests on JavaScript's floating point
-- numbers, and no file uses it), the throttling of events by rxjs, metrics, health checks, logging,
-- migrations and seeds, and the wiring of NestJS modules. They are outside the parts above or only
-- call them, or their work is done by a library.
pub mod Api
pub mod Audit
pub mod Auth
pub mod Common
pub mod Database
pub mod Files
pub mod Graphql
pub mod Http
pub mod Kafka
pub mod Orders
pub mod Outbox
pub mod Pagination
pub mod PaymentService
pub mod Payments
pub mod Platform
pub mod Products
pub mod Rabbitmq
pub mod Realtime
pub mod Runtime
pub mod Users
