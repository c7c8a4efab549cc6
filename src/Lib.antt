-- ===== src/Lib.antt =====
-- A verification library for the NewsIntel backend (backend/app): a self-hosted news archive that
-- polls feeds, annotates articles, clusters independent reports of one story, associates stories
-- into events and serves the result.
--
-- The parts and the files that model them:
--
-- - Jobs: backend/app/jobs/leasing.py, the claims, leases and retries that every queue table shares.
--   Jobs/Leasing.antt has one function for each of the module's functions, over a row's columns;
--   Jobs/Leasing/Fencing.antt lets any number of workers, sweeps and requests act on one row.
-- - Auth: backend/app/auth/limits.py, the hold on a name after repeated failed sign-ins, in
--   Auth/Limits.antt.
-- - Clustering: backend/app/clustering/engine.py. Clustering/Wording.antt has the words and stems,
--   Scoring.antt the overlaps and scores, Ranking.antt the ranked candidates, the survivor of a
--   merge and a cluster's facts, Store.antt the tables, their queries and the refresh of a cluster,
--   and Assign.antt the whole of `RuleClusterer.assign` with `_merge` and `_finish`.
-- - The queue of clustering jobs: backend/app/clustering/service.py and execution.py.
--   Clustering/Queue.antt has the requests, the claims and what a worker writes, with the lease of
--   Jobs; Queue/Runs.antt lets them follow one another in any order.
-- - Events: backend/app/events/engine.py and service.py. Events/Scoring.antt and Choice.antt have
--   the score and the choice of an event, Store.antt the tables and the functions of service.py,
--   Facts.antt what a decision reads, and Decide.antt the batch and the reconciliation.
-- - Wikidata: backend/app/wikidata/throttle.py, the one throttle of every request to Wikidata.
--   Wikidata/Throttle.antt has its rules (`wait_seconds`, `after_request`), Throttle/Runs.antt the
--   turns that `slot` lets through one after another, with an OverflowError as `none`.
-- - Entities: the authority file of names, backend/app/entities/authority.py with models.py,
--   resolver.py and in_use.py, and backend/app/nlp/authority.py. Entities/Mentions.antt has
--   `combine_rows` and `split_occurrences`, Store.antt the tables and lookups, Changes.antt `merge`,
--   `adopt` and `split`, Edits.antt the other changes of a user, Runs.antt the runs that carry them
--   through the articles, and Reach.antt lets all of them follow one another in any order.
-- - Search: backend/app/search/service.py and indexing.py, the revisions that an article's
--   deliveries to the search index are asked for and have indexed. Search/Deliveries.antt has the
--   operations, Search/Runs.antt lets them follow one another in any order, and Refreshes.antt has
--   the reindexing of a feed's articles in batches.
-- - Prelude: tests on numbers, lists, sets as lists, and a stable sort.
--
-- How the code is modelled. Identifiers (UUIDs) and claim tokens are natural numbers: the code only
-- compares them. Times are whole microseconds since an epoch, as a datetime stores them, and
-- durations are whole microseconds. A text is the list of its code points. A table is a list of
-- rows, and a query is the function of the rows that it selects. What the database or the runtime
-- draws (new ids, tokens, the clock) is an argument. A function that raises returns an option or a
-- result. Every loop of the code runs over a list, so the models recur on lists and need no fuel;
-- Entities/Finishing.antt repeats the batches of a run and counts how many are enough.
--
-- Parameters, not models: floating-point arithmetic (Clustering/Numbers.antt, with the facts about
-- rounding that the bounds need, and fixed-point numbers in Clustering/Fixed.antt that satisfy
-- them), what Unicode says of characters, the stop words and the text of an article.
--
-- Not modelled: the network, Elasticsearch, spaCy and other third-party code, the routes and
-- schemas of the API, read-only SQL reports, the frontend and deployment.
pub mod Prelude
pub mod Jobs
pub mod Auth
pub mod Clustering
pub mod Wikidata
pub mod Events
pub mod Entities
pub mod Search
