-- ===== src/Examples.antt =====
-- Concrete runs of the package.
mod Toy
mod Stored
mod Fresh
mod ExchangeRuns
mod LifeRuns
mod FetchRuns
mod StoreRuns
mod SuiteRuns
mod ResponseRuns
mod IssueRuns
mod OtherRuns
mod ReportRuns
mod RefusalRuns
mod DcapiRuns
