-- ===== src/Lib.antt =====
-- The defense plane of the repository, and the data that its guards keep: models of the TypeScript
-- modules under defense, of the admission authority under workers, and of three modules under src/lib,
-- with theorems on what they promise.
--
-- Defense.Bucket, Defense.CreditFilter, Defense.UseLedger, Defense.Request and Defense.Lanes model
-- defense/core/lanes.ts, defense/core/credit-filter.ts and the request type of defense/core/types.ts.
-- `JourneyLanes.decide` classifies a request, looks its token up in the filter, and takes from the
-- bucket of one lane; a credited admission commits one use to the ledger.
--
-- A reading of a monotonic clock is a number of whole microseconds, and an operation takes as
-- arguments the readings that the code makes, in the order in which it makes them. Rates are in
-- thousandths of a token a second, which is micro-tokens a millisecond; the arithmetic is exact and
-- has no rounding of floating point. A `throw` of a constructor is `none`. A JavaScript `Map` with
-- string keys is an association list in insertion order. The hashes of node:crypto and the encodings
-- of Buffer are parameters. A digest is a list of bytes, and a bit mask on a power of two is a
-- remainder. The loop over a form body runs on fuel of one more than its length, which the theorem on
-- it shows to be enough.
--
-- Defense.ReplayGuard models defense/core/replay-guard.ts: the identifiers of hop proofs, each of
-- which is accepted once in its retention. Defense.Reasons models the tables of refusals in
-- defense/core/types.ts. Defense.Anomaly, Defense.Events, Defense.Automata, Defense.Lifecycle and
-- Defense.Channel model defense/core/ledger.ts: the events that the processes report, the tables of
-- legal successors, the validation of one lifecycle, and the bounded channel to the collector.
-- Defense.Lineage models defense/core/lineage.ts, which joins the streams of three processes;
-- Defense.L2Lifecycle models defense/core/l2-lifecycle.ts, the rules of the second layer; and
-- Defense.Penetration models defense/core/penetration.ts, how deep one request went. An anomaly is
-- its code alone. The loop of `flush` runs on fuel of the length of the queue, which is enough, since
-- each frame takes an event off it.
--
-- Defense.Composer models defense/core/composer.ts: one run of a layer is cut at its `await`, and the
-- starts, resumptions, settlings and reclaim timers of all the runs come in any order.
-- Defense.Enrollment models defense/core/enrollment.ts, the matcher of the form's token, on lists of
-- latin-1 bytes; an exception of Buffer is `none`. Defense.L2Stage models defense/plane/l2-stage.ts
-- and defense/layers/a7-journey-lanes.ts: the decision made of the composer's outcome and of what the
-- lanes had decided, and the observation of a render over its callbacks. Defense.IngressClass models
-- defense/core/ingress-class.ts.
--
-- Inquiry.Workflow and Inquiry.Retry model src/lib/inquiry-status-workflow.ts and
-- src/lib/notification-retry-policy.ts of the application. Inquiry.Mutation models
-- src/lib/admin-inquiry-mutation-repository.ts: the versions of one row, and transactions whose
-- selects may have read an older version than the one that their update meets.
--
-- Admission.Authority models workers/admission-service/authority.ts: the tables of the durable object
-- as lists, a transaction as a result that an exception leaves out, and in
-- Admission.Authority.History the authority with a log of its admissions. Its clock is in whole
-- milliseconds. Admission.Lifecycle models the initialization of the authority and the rotation of
-- its releases, from the same file.
--
-- Not modelled: sockets, processes and timers, the web pages, and the engines of the databases.
pub mod Common
pub mod Defense
pub mod Inquiry
pub mod Admission
