-- ===== src/Crew/Roles/Table.antt =====
-- The decision classes of internal/crew/roles.yaml, and the part of each job description that the
-- code decides by: its family, the roster names that it matches, its link and its class lists.
use costcrew.Base.{List, [], ◌∷◌, codes}
use costcrew.Crew.Roles.Defs.{
  analyst, supervisor, owner, nobody, JobClass, JobDescription, RolesFile,
}

abbrev pub classes : List JobClass
classes =
    record { id = codes "anomaly.explain"; owner = analyst; up_to = codes "T.anomaly" }
    ∷ record { id = codes "anomaly.dismiss"; owner = analyst; up_to = codes "T.anomaly" }
    ∷ record { id = codes "anomaly.accept"; owner = supervisor; up_to = codes "" }
    ∷ record { id = codes "driver.one-time"; owner = analyst; up_to = codes "" }
    ∷ record { id = codes "driver.recurring"; owner = supervisor; up_to = codes "" }
    ∷ record { id = codes "driver.announced"; owner = owner; up_to = codes "" }
    ∷ record { id = codes "commentary.variance"; owner = analyst; up_to = codes "" }
    ∷ record { id = codes "commentary.showback"; owner = analyst; up_to = codes "" }
    ∷ record { id = codes "forecast.project"; owner = analyst; up_to = codes "" }
    ∷ record { id = codes "forecast.freeze"; owner = supervisor; up_to = codes "" }
    ∷ record { id = codes "period.close"; owner = owner; up_to = codes "" }
    ∷ record { id = codes "period.reopen"; owner = owner; up_to = codes "" }
    ∷ record { id = codes "allocation.rule"; owner = owner; up_to = codes "" }
    ∷ record { id = codes "budget.set"; owner = owner; up_to = codes "" }
    ∷ record { id = codes "recommendation.rightsizing"; owner = analyst; up_to = codes "" }
    ∷ record { id = codes "recommendation.commitment"; owner = analyst; up_to = codes "" }
    ∷ record { id = codes "recommendation.renewal"; owner = analyst; up_to = codes "" }
    ∷ record { id = codes "option.select"; owner = supervisor; up_to = codes "" }
    ∷ record { id = codes "explainer.publish"; owner = supervisor; up_to = codes "" }
    ∷ record { id = codes "message.team"; owner = owner; up_to = codes "" }
    ∷ record { id = codes "purchase"; owner = nobody; up_to = codes "" }
    ∷ record { id = codes "infra.change"; owner = nobody; up_to = codes "" }
    ∷ record { id = codes "vendor.negotiate"; owner = nobody; up_to = codes "" }
    ∷ record { id = codes "sprint.plan"; owner = supervisor; up_to = codes "" }
    ∷ record { id = codes "sprint.approve"; owner = owner; up_to = codes "" }
    ∷ record { id = codes "sprint.close"; owner = supervisor; up_to = codes "" }
    ∷ record { id = codes "task.assign"; owner = supervisor; up_to = codes "" }
    ∷ record { id = codes "task.return"; owner = supervisor; up_to = codes "" }
    ∷ record { id = codes "task.accept"; owner = supervisor; up_to = codes "" }
    ∷ record { id = codes "task.block"; owner = analyst; up_to = codes "" }
    ∷ record { id = codes "agent.*"; owner = owner; up_to = codes "" }
    ∷ record { id = codes "kpi.define"; owner = owner; up_to = codes "" }
    ∷ record { id = codes "kpi.refuse"; owner = analyst; up_to = codes "" }
    ∷ record { id = codes "data.halt"; owner = supervisor; up_to = codes "" }
    ∷ record { id = codes "policy.exception"; owner = owner; up_to = codes "" }
    ∷ record { id = codes "escalation.request"; owner = supervisor; up_to = codes "" }
    ∷ []

abbrev pub descriptions : List JobDescription
descriptions =
    record {
      family = codes "investigator";
      matches =
          (codes "investigator-aws" ∷ codes "investigator-gcp" ∷ codes "investigator-azure" ∷ []);
      link = analyst;
      decides_alone =
          (codes "anomaly.explain"
            ∷ codes "anomaly.dismiss"
            ∷ codes "driver.one-time"
            ∷ codes "task.block"
            ∷ []);
      hands_up = (codes "purchase" ∷ codes "infra.change" ∷ codes "message.team" ∷ []);
    }
    ∷ record {
      family = codes "anomaly-triage";
      matches =
          (codes "triage-aws" ∷ codes "triage-gcp" ∷ codes "triage-azure" ∷ codes "triage-ai" ∷ []);
      link = analyst;
      decides_alone = (codes "anomaly.dismiss" ∷ codes "driver.one-time" ∷ codes "task.block" ∷ []);
      hands_up =
          (codes "anomaly.explain"
            ∷ codes "purchase"
            ∷ codes "infra.change"
            ∷ codes "message.team"
            ∷ codes "kpi.define"
            ∷ []);
    }
    ∷ record {
      family = codes "optimizer";
      matches = (codes "optimizer-aws" ∷ codes "optimizer-gcp" ∷ codes "optimizer-azure" ∷ []);
      link = analyst;
      decides_alone = (codes "recommendation.rightsizing" ∷ []);
      hands_up = (codes "infra.change" ∷ codes "driver.announced" ∷ []);
    }
    ∷ record {
      family = codes "reporter";
      matches = (codes "reporter-aws" ∷ codes "reporter-gcp" ∷ codes "reporter-azure" ∷ []);
      link = analyst;
      decides_alone = (codes "commentary.variance" ∷ codes "commentary.showback" ∷ []);
      hands_up = (codes "explainer.publish" ∷ codes "message.team" ∷ []);
    }
    ∷ record {
      family = codes "capacity-analyst";
      matches = (codes "capacity-aws" ∷ codes "capacity-gcp" ∷ codes "capacity-azure" ∷ []);
      link = analyst;
      decides_alone = (codes "forecast.project" ∷ []);
      hands_up = (codes "forecast.freeze" ∷ codes "purchase" ∷ []);
    }
    ∷ record {
      family = codes "finops-partner";
      matches = (codes "partner-aws" ∷ codes "partner-gcp" ∷ codes "partner-azure" ∷ []);
      link = analyst;
      decides_alone = (codes "commentary.variance" ∷ codes "commentary.showback" ∷ []);
      hands_up = (codes "message.team" ∷ codes "policy.exception" ∷ []);
    }
    ∷ record {
      family = codes "ai-spend-analyst";
      matches = (codes "ai-spend" ∷ []);
      link = analyst;
      decides_alone = (codes "commentary.variance" ∷ []);
      hands_up = (codes "infra.change" ∷ codes "driver.announced" ∷ []);
    }
    ∷ record {
      family = codes "unit-economics-ai";
      matches = (codes "unit-econ-ai" ∷ []);
      link = analyst;
      decides_alone = (codes "kpi.refuse" ∷ []);
      hands_up = (codes "kpi.define" ∷ []);
    }
    ∷ record {
      family = codes "saas-portfolio-manager";
      matches = (codes "saas-manager" ∷ []);
      link = analyst;
      decides_alone = (codes "driver.one-time" ∷ []);
      hands_up = (codes "purchase" ∷ codes "vendor.negotiate" ∷ []);
    }
    ∷ record {
      family = codes "renewals-analyst";
      matches = (codes "renewals" ∷ []);
      link = analyst;
      decides_alone = (codes "recommendation.renewal" ∷ []);
      hands_up = (codes "vendor.negotiate" ∷ []);
    }
    ∷ record {
      family = codes "chargeback-analyst";
      matches = (codes "chargeback" ∷ []);
      link = analyst;
      decides_alone = (codes "commentary.showback" ∷ []);
      hands_up = (codes "period.close" ∷ codes "period.reopen" ∷ codes "allocation.rule" ∷ []);
    }
    ∷ record {
      family = codes "commitment-analyst";
      matches = (codes "commitments" ∷ []);
      link = analyst;
      decides_alone = (codes "recommendation.commitment" ∷ []);
      hands_up = (codes "purchase" ∷ []);
    }
    ∷ record {
      family = codes "forecaster";
      matches = (codes "forecaster" ∷ []);
      link = analyst;
      decides_alone = (codes "forecast.project" ∷ []);
      hands_up = (codes "forecast.freeze" ∷ codes "driver.announced" ∷ []);
    }
    ∷ record {
      family = codes "kpi-steward";
      matches = (codes "kpi-steward" ∷ []);
      link = analyst;
      decides_alone = (codes "kpi.refuse" ∷ []);
      hands_up = (codes "kpi.define" ∷ []);
    }
    ∷ record {
      family = codes "executive-reporter";
      matches = (codes "exec-reporter" ∷ []);
      link = analyst;
      decides_alone = (codes "commentary.variance" ∷ []);
      hands_up = (codes "explainer.publish" ∷ codes "message.team" ∷ []);
    }
    ∷ record {
      family = codes "governance-analyst";
      matches = (codes "governance" ∷ []);
      link = analyst;
      decides_alone = [];
      hands_up = (codes "policy.exception" ∷ []);
    }
    ∷ record {
      family = codes "data-quality-analyst";
      matches = (codes "data-quality" ∷ []);
      link = analyst;
      decides_alone = [];
      hands_up = (codes "data.halt" ∷ []);
    }
    ∷ record {
      family = codes "benchmarking-analyst";
      matches = (codes "benchmarking" ∷ []);
      link = analyst;
      decides_alone = [];
      hands_up = [];
    }
    ∷ record {
      family = codes "sustainability-analyst";
      matches = (codes "sustainability" ∷ []);
      link = analyst;
      decides_alone = [];
      hands_up = (codes "explainer.publish" ∷ []);
    }
    ∷ record {
      family = codes "deep-analysis";
      matches = (codes "deep-analysis" ∷ []);
      link = analyst;
      decides_alone = (codes "task.block" ∷ []);
      hands_up = (codes "agent.*" ∷ []);
    }
    ∷ record {
      family = codes "intake-triage";
      matches = (codes "intake-triage" ∷ []);
      link = analyst;
      decides_alone = [];
      hands_up = [];
    }
    ∷ record {
      family = codes "migration-watch";
      matches = (codes "migration-watch" ∷ []);
      link = analyst;
      decides_alone = (codes "driver.one-time" ∷ []);
      hands_up = (codes "anomaly.accept" ∷ []);
    }
    ∷ record {
      family = codes "investigator-onprem";
      matches = (codes "investigator-onprem" ∷ []);
      link = analyst;
      decides_alone =
          (codes "anomaly.explain"
            ∷ codes "anomaly.dismiss"
            ∷ codes "driver.one-time"
            ∷ codes "task.block"
            ∷ []);
      hands_up = (codes "purchase" ∷ codes "infra.change" ∷ codes "message.team" ∷ []);
    }
    ∷ record {
      family = codes "optimizer-onprem";
      matches = (codes "optimizer-onprem" ∷ []);
      link = analyst;
      decides_alone = (codes "recommendation.rightsizing" ∷ []);
      hands_up = (codes "infra.change" ∷ codes "driver.announced" ∷ []);
    }
    ∷ record {
      family = codes "reporter-onprem";
      matches = (codes "reporter-onprem" ∷ []);
      link = analyst;
      decides_alone = (codes "commentary.variance" ∷ codes "commentary.showback" ∷ []);
      hands_up = (codes "explainer.publish" ∷ codes "message.team" ∷ []);
    }
    ∷ record {
      family = codes "supervisor";
      matches = (codes "supervisor" ∷ []);
      link = supervisor;
      decides_alone =
          (codes "sprint.plan"
            ∷ codes "sprint.close"
            ∷ codes "task.assign"
            ∷ codes "task.return"
            ∷ codes "task.accept"
            ∷ codes "option.select"
            ∷ codes "anomaly.accept"
            ∷ codes "driver.recurring"
            ∷ codes "forecast.freeze"
            ∷ codes "explainer.publish"
            ∷ codes "data.halt"
            ∷ codes "escalation.request"
            ∷ []);
      hands_up = [];
    }
    ∷ []

abbrev pub roles : RolesFile
roles = record { classes = classes; roles = descriptions }
